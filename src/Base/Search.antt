-- ===== src/Base/Search.antt =====
-- `find_sub` on a text that goes on.
use Prim.Native.Nat.{ℕ, ◌+◌, ◌≤◌}
use mathlib.Core.Path.{◌≡◌, refl, ap}
use mathlib.Core.Logic.{◌≢◌, inl, inr}
use mathlib.Core.Bool.{true}
use mathlib.Core.Option.{none, some}
use mathlib.Core.List.{[], ◌∷◌, ◌++◌}
use native.Mathlib.Omega.{arith}
use laye.Base.Tests.{Bool-cases, Option-cases}
use laye.Base.Lists.{length}
use laye.Base.Texts.{Bytes, starts_with, starts_with-append, find_sub}

starts_with_fits : (p xs : Bytes) → starts_with p xs ≡ true → length p ≤ length xs
unfolding starts_with
starts_with_fits [] xs h = omega arith
starts_with_fits (c ∷ p) [] h = absurd (ground (arith, h))
starts_with_fits (c ∷ p) (x ∷ xs) h = ground (arith, h, starts_with_fits p xs)

-- A text that is long enough decides.
starts_with-append_long :
    (p xs ys : Bytes) → length p ≤ length xs → starts_with p (xs ++ ys) ≡ starts_with p xs
unfolding starts_with
starts_with-append_long [] xs ys h = refl
starts_with-append_long (c ∷ p) [] ys h = absurd (omega (arith, h))
starts_with-append_long (c ∷ p) (x ∷ xs) ys h =
    ground (arith, starts_with-append_long p xs ys (omega (arith, h)))

-- What is found lies inside the text.
pub find_sub_fits : (p xs : Bytes) {k : ℕ} → find_sub p xs ≡ some k → k + length p ≤ length xs
unfolding find_sub
find_sub_fits p [] h = absurd (ground (arith, h))
find_sub_fits p (x ∷ xs) {k} h = elim (Option-cases (find_sub p xs)) [
  | inl e ↦ ground (arith, h, e, starts_with_fits p (x ∷ xs))
  | inr (n, e) ↦ ground (arith, h, e, starts_with_fits p (x ∷ xs), find_sub_fits p xs e)
]

-- A first occurrence stays the first one when the text goes on.
pub find_sub-append :
    (p xs ys : Bytes) {k : ℕ} → find_sub p xs ≡ some k → find_sub p (xs ++ ys) ≡ some k
unfolding find_sub
find_sub-append p [] ys h = absurd (ground (arith, h))
find_sub-append p (x ∷ xs) ys {k} h = elim (Option-cases (find_sub p xs)) [
  | inl e ↦ ground (arith, h, e, starts_with_fits p (x ∷ xs), starts_with-append_long p (x ∷ xs) ys)
  | inr (n, e) ↦
      let fits = find_sub_fits p xs e in
      ground (
        arith,
        h,
        e,
        find_sub-append p xs ys e,
        starts_with-append_long p (x ∷ xs) ys (omega (arith, fits)),
      )
]

starts_with_sound : (p xs : Bytes) → starts_with p xs ≡ true → (post : Bytes) × (xs ≡ p ++ post)
unfolding starts_with
starts_with_sound [] xs h = (xs, refl)
starts_with_sound (c ∷ p) [] h = absurd (ground (arith, h))
starts_with_sound (c ∷ p) (x ∷ xs) h =
    let (post, e) = starts_with_sound p xs (ground (arith, h)) in (post, ground (arith, h, e))

-- Where something is found, it stands in the text.
pub find_sub_sound :
    (p xs : Bytes) {k : ℕ}
    → find_sub p xs ≡ some k
    → (pre : Bytes) × ((post : Bytes) × (xs ≡ pre ++ (p ++ post)))
unfolding find_sub
find_sub_sound p [] h = absurd (ground (arith, h))
find_sub_sound p (x ∷ xs) {k} h = elim (Bool-cases (starts_with p (x ∷ xs))) [
  | inl s ↦ ([], starts_with_sound p (x ∷ xs) s)
  | inr s ↦ elim (Option-cases (find_sub p xs)) [
    | inl e ↦ absurd (ground (arith, h, e, s))
    | inr (n, e) ↦
        let (pre, (post, same)) = find_sub_sound p xs e in (x ∷ pre, (post, ap (λ t. x ∷ t) same))
  ]
]

-- What stands in the text is found.
pub find_sub_complete :
    (c : ℕ) (p pre post : Bytes) → find_sub (c ∷ p) (pre ++ (c ∷ p ++ post)) ≢ none
unfolding find_sub
find_sub_complete c p [] post h = ground (arith, h, starts_with-append (c ∷ p) post)
find_sub_complete c p (x ∷ pre) post h = ground (arith, h, find_sub_complete c p pre post)
