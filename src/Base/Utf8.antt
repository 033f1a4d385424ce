-- ===== src/Base/Utf8.antt =====
-- `std::str::from_utf8`: which byte strings are UTF-8, by the table of the Unicode standard.
use Prim.Native.Nat.{ℕ, zero, suc, ◌<◌}
use mathlib.Core.Bool.{Bool, true, false, ◌&&◌}
use mathlib.Core.List.{[], ◌∷◌}
use mathlib.Core.Option.{Option, none, some}
use mathlib.Core.Path.{◌≡◌, refl}
use native.Mathlib.Omega.{arith}
use laye.Base.Tests.{ltb, leb, ◌==◌, if◌then◌else◌}
use laye.Base.Texts.{Bytes}
use laye.Base.Lists.{All}

-- How many continuation bytes a lead byte wants, and the range of the first of them.
lead : ℕ → Option (ℕ × ℕ × ℕ)
lead c =
    if ltb c 0x80
    then some (0, 0x80, 0xbf)
    else if leb 0xc2 c && leb c 0xdf
    then some (1, 0x80, 0xbf)
    else if c == 0xe0
    then some (2, 0xa0, 0xbf)
    else if c == 0xed
    then some (2, 0x80, 0x9f)
    else if leb 0xe1 c && leb c 0xef
    then some (2, 0x80, 0xbf)
    else if c == 0xf0
    then some (3, 0x90, 0xbf)
    else if leb 0xf1 c && leb c 0xf3
    then some (3, 0x80, 0xbf)
    else if c == 0xf4
    then some (3, 0x80, 0x8f)
    else none

-- `more` continuation bytes are still due, the next one between `lo` and `hi`.
scan : ℕ → ℕ → ℕ → Bytes → Bool
scan zero lo hi [] = true
scan (suc more) lo hi [] = false
scan zero lo hi (c ∷ s) = elim (lead c) [ none ↦ false | some (n, lo', hi') ↦ scan n lo' hi' s ]
scan (suc more) lo hi (c ∷ s) = elim (leb lo c && leb c hi) [
  | true ↦ scan more 0x80 0xbf s
  | false ↦ false
]

unfoldable pub is_utf8 : Bytes → Bool
unfolding lead scan
is_utf8 s = scan 0 0x80 0xbf s

scan-ascii : (lo hi : ℕ) (s : Bytes) → All (λ c. c < 0x80) s → scan 0 lo hi s ≡ true
unfolding lead scan
scan-ascii lo hi [] h = refl
scan-ascii lo hi (c ∷ s) h = ground (arith, scan-ascii 0x80 0xbf s h.1)

-- ASCII text is UTF-8.
pub is_utf8-ascii : (s : Bytes) → All (λ c. c < 0x80) s → is_utf8 s ≡ true
unfolding is_utf8
is_utf8-ascii s h = scan-ascii 0x80 0xbf s h

-- `from_utf8(s).ok()`.
abbrev pub from_utf8 : Bytes → Option Bytes
from_utf8 s = if is_utf8 s then some s else none
