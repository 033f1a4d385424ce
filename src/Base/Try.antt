-- ===== src/Base/Try.antt =====
-- `?` on a `Result`. A file that also chains options takes this under another name.
use laye.Base.Tests.{Result, ok, err, ok_or, if◌then◌else◌}
use mathlib.Core.Option.{Option, none, some}
use mathlib.Core.Path.{◌≡◌, refl}
use native.Mathlib.Omega.{arith}
use mathlib.Core.Bool.{Bool, true, false}

infixl 5 ◌>>=◌ ◌>>◌
abbrev pub ◌>>=◌ {ℓ κ μ} :
    {E : Type μ} {A : Type ℓ} {B : Type κ} → Result E A → (A → Result E B) → Result E B
ok a >>= f = f a
err e >>= f = err e

abbrev pub ◌>>◌ {ℓ μ} : {E : Type μ} {B : Type ℓ} → Result E (Unit {0}) → Result E B → Result E B
m >> k = m >>= λ _. k

-- `map_err`.
abbrev pub map_err {ℓ κ μ} :
    {E : Type μ} {F : Type κ} {A : Type ℓ} → (E → F) → Result E A → Result F A
map_err f (ok a) = ok a
map_err f (err e) = err (f e)

-- `if !b { return Err(e) }`.
abbrev pub require {ℓ} : {E : Type ℓ} → Bool → E → Result E (Unit {0})
require b e = if b then ok tt else err e

-- What a chain that succeeds went through.
pub Result->>= {ℓ κ μ} :
    {E : Type κ} {A : Type ℓ} {B : Type μ} (r : Result E A) (f : A → Result E B) {b : B}
    → (r >>= f) ≡ ok b
    → (a : A) × ((r ≡ ok a) × (f a ≡ ok b))
Result->>= (ok a) f h = (a, (refl, h))
Result->>= (err e) f h = absurd (ground arith)

pub map_err_sound {ℓ κ μ} :
    {E : Type κ} {F : Type μ} {A : Type ℓ} (f : E → F) (r : Result E A) {a : A}
    → map_err f r ≡ ok a
    → r ≡ ok a
map_err_sound f (ok b) h = ground (arith, h)
map_err_sound f (err e) h = absurd (ground (arith, h))

pub ok_or_sound {ℓ κ} :
    {E : Type κ} {A : Type ℓ} (r : Option A) (x : E) {a : A} → ok_or r x ≡ ok a → r ≡ some a
ok_or_sound none x h = absurd (ground (arith, h))
ok_or_sound (some b) x h = ground (arith, h)

pub require_sound {ℓ} :
    {E : Type ℓ} (b : Bool) (x : E) {u : Unit {0}} → require b x ≡ ok u → b ≡ true
require_sound true x h = refl
require_sound false x h = absurd (ground (arith, h))
