-- ===== src/Base/Ranges.antt =====
-- Facts about small numbers, checked by evaluation at each.
use Prim.Native.Nat.{ℕ, zero, suc, ◌<◌}
use laye.Base.Tests.{if◌then◌else◌}
use mathlib.Core.Path.{◌≡◌}
use mathlib.Core.Bool.{Bool, true, false}
use native.Mathlib.Omega.{arith}

abbrev pub holds_below : (ℕ → Bool) → ℕ → Bool
holds_below p zero = true
holds_below p (suc n) = if p n then holds_below p n else false

pub holds_below_sound : (p : ℕ → Bool) (n x : ℕ) → holds_below p n ≡ true → x < n → p x ≡ true
holds_below_sound p zero x h l = elim l [ ]
holds_below_sound p (suc n) x h l = ground (arith, holds_below_sound p n x)
