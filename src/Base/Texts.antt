-- ===== src/Base/Texts.antt =====
-- Bytes. A `String` or a `&str` is its UTF-8 bytes, and `[u8; 32]` is a list of 32 of them.
use Prim.Native.Char.{code}
use Prim.Native.String.{String}
use Prim.Native.Nat.{ℕ, suc, ◌+◌, ◌<◌}
use mathlib.Core.Path.{◌≡◌, refl}
use mathlib.Core.Logic.{◌↔◌, ◌≢◌, inl, inr}
use mathlib.Core.Bool.{Bool, true, false, ◌&&◌}
use mathlib.Core.List.{List, [], ◌∷◌, ◌++◌}
use mathlib.Core.Option.{Option, none, some}
use native.Mathlib.Omega.{arith}
use laye.Base.Tests.{Option-cases, leb, ◌==◌, if◌then◌else◌}
use laye.Base.Lists.{All}

abbrev pub Bytes : Type 0
Bytes = List ℕ

-- The bytes of an ASCII literal.
abbrev pub codes : String → Bytes
codes String.[] = []
codes (String.◌∷◌ c s) = code c ∷ codes s

-- U+2014, in UTF-8.
abbrev pub em_dash : Bytes
em_dash = 226 ∷ 128 ∷ 148 ∷ []

-- `==` on byte strings.
unfoldable pub bytes_eq : Bytes → Bytes → Bool
bytes_eq [] [] = true
bytes_eq [] (y ∷ ys) = false
bytes_eq (x ∷ xs) [] = false
bytes_eq (x ∷ xs) (y ∷ ys) = if x == y then bytes_eq xs ys else false

bytes_eq_sound : (xs ys : Bytes) → bytes_eq xs ys ≡ true → xs ≡ ys
unfolding bytes_eq
bytes_eq_sound [] [] h = refl
bytes_eq_sound [] (y ∷ ys) h = cc
bytes_eq_sound (x ∷ xs) [] h = cc
bytes_eq_sound (x ∷ xs) (y ∷ ys) h = ground (arith, bytes_eq_sound xs ys)

pub bytes_eq_refl : (xs : Bytes) → bytes_eq xs xs ≡ true
unfolding bytes_eq
bytes_eq_refl [] = refl
bytes_eq_refl (x ∷ xs) = ground (arith, bytes_eq_refl xs)

pub bytes_eq_iff : (xs ys : Bytes) → (bytes_eq xs ys ≡ true) ↔ (xs ≡ ys)
bytes_eq_iff xs ys = (bytes_eq_sound xs ys, λ e. cc (bytes_eq_refl xs))

-- `xs.starts_with(p)`, and the rest behind the prefix: `xs.strip_prefix(p)`.
unfoldable pub strip_prefix : Bytes → Bytes → Option Bytes
strip_prefix [] xs = some xs
strip_prefix (p ∷ ps) [] = none
strip_prefix (p ∷ ps) (x ∷ xs) = if p == x then strip_prefix ps xs else none

unfoldable pub starts_with : Bytes → Bytes → Bool
starts_with [] xs = true
starts_with (p ∷ ps) [] = false
starts_with (p ∷ ps) (x ∷ xs) = if p == x then starts_with ps xs else false

pub strip_prefix-append : (p rest : Bytes) → strip_prefix p (p ++ rest) ≡ some rest
unfolding strip_prefix
strip_prefix-append [] rest = refl
strip_prefix-append (c ∷ p) rest = ground (arith, strip_prefix-append p rest)

pub strip_prefix_sound :
    (p xs : Bytes) {rest : Bytes} → strip_prefix p xs ≡ some rest → xs ≡ p ++ rest
unfolding strip_prefix
strip_prefix_sound [] xs h = cc
strip_prefix_sound (c ∷ p) [] h = cc
strip_prefix_sound (c ∷ p) (x ∷ xs) {rest} h = ground (arith, strip_prefix_sound p xs {rest = rest})

pub starts_with-append : (p rest : Bytes) → starts_with p (p ++ rest) ≡ true
unfolding starts_with
starts_with-append [] rest = refl
starts_with-append (c ∷ p) rest = ground (arith, starts_with-append p rest)

-- `xs.windows(p.len()).position(|w| w == p)`, at a pattern that is not empty.
unfoldable pub find_sub : Bytes → Bytes → Option ℕ
unfolding starts_with
find_sub p [] = none
find_sub p (x ∷ xs) =
    let rest = find_sub p xs in
    if starts_with p (x ∷ xs) then some 0 else elim rest [ none ↦ none | some n ↦ some (suc n) ]

-- No byte of the text is `b`.
abbrev pub Lacks : ℕ → Bytes → Type 0
Lacks b = All (λ c. c ≢ b)

-- Where neither head holds the separator, the heads and the rests agree.
pub append-separator-injective :
    (b : ℕ) (xs ys : Bytes) {u v : Bytes}
    → Lacks b xs
    → Lacks b ys
    → xs ++ b ∷ u ≡ ys ++ b ∷ v
    → (xs ≡ ys) × (u ≡ v)
append-separator-injective b [] [] hx hy e = (refl, cc)
append-separator-injective b [] (y ∷ ys) hx hy e = absurd (hy.0 (cc))
append-separator-injective b (x ∷ xs) [] hx hy e = absurd (hx.0 (cc))
append-separator-injective b (x ∷ xs) (y ∷ ys) {u} {v} hx hy e =
    let (p, q) = append-separator-injective b xs ys {u = u} {v = v} hx.1 hy.1 (cc) in (cc, q)

pub append_cancel {ℓ} : {A : Type ℓ} (p : List A) {xs ys : List A} → p ++ xs ≡ p ++ ys → xs ≡ ys
append_cancel [] e = e
append_cancel (c ∷ p) {xs} {ys} e = append_cancel p {xs = xs} {ys = ys} (cc)

-- A byte is below 256.
abbrev pub IsBytes : Bytes → Type 0
IsBytes = All (λ c. c < 256)

-- `u8::to_ascii_lowercase`, and on every byte.
unfoldable pub to_ascii_lowercase : ℕ → ℕ
to_ascii_lowercase c = if leb b'A' c && leb c b'Z' then c + 32 else c

pub to_ascii_lowercase_idem :
    (c : ℕ) → to_ascii_lowercase (to_ascii_lowercase c) ≡ to_ascii_lowercase c
unfolding to_ascii_lowercase
to_ascii_lowercase_idem c = ground arith

-- `split(sep)`: always at least one part.
unfoldable pub split : ℕ → Bytes → List Bytes
split sep [] = [] ∷ []
split sep (c ∷ s) =
    let rest = split sep s in
    if c == sep then [] ∷ rest else elim rest [ [] ↦ (c ∷ []) ∷ [] | p ∷ ps ↦ (c ∷ p) ∷ ps ]

-- `split_once(sep)`.
unfoldable pub split_once : ℕ → Bytes → Option (Bytes × Bytes)
split_once sep [] = none
split_once sep (c ∷ s) =
    let rest = split_once sep s in
    if c == sep then some ([], s) else elim rest [ none ↦ none | some (a, b) ↦ some (c ∷ a, b) ]

pub split_once-append :
    (sep : ℕ) (a b : Bytes) → Lacks sep a → split_once sep (a ++ sep ∷ b) ≡ some (a, b)
unfolding split_once
split_once-append sep [] b h = ground arith
split_once-append sep (c ∷ a) b h = ground (arith, split_once-append sep a b h.1)

pub split_once-Lacks : (sep : ℕ) (s : Bytes) → Lacks sep s → split_once sep s ≡ none
unfolding split_once
split_once-Lacks sep [] h = refl
split_once-Lacks sep (c ∷ s) h = ground (arith, split_once-Lacks sep s h.1)

pub split_once_sound :
    (sep : ℕ) (s : Bytes) {a b : Bytes}
    → split_once sep s ≡ some (a, b)
    → (s ≡ a ++ sep ∷ b) × Lacks sep a
unfolding split_once
split_once_sound sep [] h = cc
split_once_sound sep (c ∷ s) {a} {b} h = elim (Option-cases (split_once sep s)) [
  | inl e ↦ ground arith
  | inr ((x, y), e) ↦ ground (arith, split_once_sound sep s e)
]
