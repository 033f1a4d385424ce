-- ===== src/Base/Recent.antt =====
-- Bounded queues that drop their oldest entry keep the last entries of what was ever put in.
use laye.Base.Tests.{Bool-cases, leb, if◌then◌else◌}
use laye.Base.Lists.{length, drop, tail, length-append, length-drop}
use Prim.Native.Nat.{ℕ, zero, suc, ◌+◌, ◌-◌, ◌<◌, ◌≤◌}
use mathlib.Core.Path.{◌≡◌, refl, ◌∙◌, ap, sym}
use mathlib.Core.Logic.{inl, inr}
use mathlib.Core.List.{List, [], ◌∷◌, ◌++◌, append_assoc, append-nil}
use native.Mathlib.Omega.{arith}

module _ {ℓ} {A : Type ℓ} where
  -- The newest `n` entries, oldest first.
  abbrev pub keep_last : ℕ → List A → List A
  keep_last n xs = drop (length xs - n) xs

  drop_eq : {a b : ℕ} (xs : List A) → a ≡ b → drop a xs ≡ drop b xs
  drop_eq xs e = ap (λ k. drop k xs) e

  drop-nil : (a : ℕ) → drop {A = A} a [] ≡ []
  drop-nil zero = refl
  drop-nil (suc a) = refl

  pub drop-drop : (a b c : ℕ) (xs : List A) → c ≡ b + a → drop a (drop b xs) ≡ drop c xs
  drop-drop a zero c xs e = drop_eq xs (omega arith)
  drop-drop a (suc b) zero xs e = absurd (omega arith)
  drop-drop a (suc b) (suc c) [] e = drop-nil a
  drop-drop a (suc b) (suc c) (x ∷ xs) e = drop-drop a b c xs (omega arith)

  pub drop-append : (a : ℕ) (xs ys : List A) → a ≤ length xs → drop a (xs ++ ys) ≡ drop a xs ++ ys
  drop-append zero xs ys h = refl
  drop-append (suc a) [] ys h = elim h [ ]
  drop-append (suc a) (x ∷ xs) ys h = drop-append a xs ys (omega arith)

  pub length-keep_last-le : (n : ℕ) (xs : List A) → length (keep_last n xs) ≤ n
  length-keep_last-le n xs = omega (arith, length-drop (length xs - n) xs)

  -- What was dropped once can not come back.
  pub keep_last-append :
      (n : ℕ) (xs ys : List A) → keep_last n (keep_last n xs ++ ys) ≡ keep_last n (xs ++ ys)
  keep_last-append n xs ys = rw (← drop-append (length xs - n) xs ys (omega arith)) (
      drop-drop _ (length xs - n) _ (xs ++ ys)
        (omega (arith, length-drop (length xs - n) (xs ++ ys), length-append xs ys)))

  pub keep_last_all : (n : ℕ) (xs : List A) → length xs ≤ n → keep_last n xs ≡ xs
  keep_last_all n xs h = drop_eq {b = 0} xs (omega arith)

  drop_one : (xs : List A) → tail xs ≡ drop 1 xs
  drop_one [] = refl
  drop_one (x ∷ xs) = refl

  -- `if len >= cap { pop_front } push_back(x)`.
  pub bounded_push_lem :
      (cap : ℕ) (x : A) (q : List A)
      → 0 < cap
      → length q ≤ cap
      → (if leb cap (length q) then tail q else q) ++ x ∷ [] ≡ keep_last cap (q ++ x ∷ [])
  bounded_push_lem cap x q pos h = elim (Bool-cases (leb cap (length q))) [
    | inl full ↦
        rw (full, drop_one q)
          (sym (drop-append 1 q (x ∷ []) (ground arith))
            ∙ drop_eq {a = 1} (q ++ x ∷ []) (ground (arith, length-append q (x ∷ []))))
    | inr room ↦ rw room (drop_eq {a = 0} (q ++ x ∷ []) (ground (arith, length-append q (x ∷ []))))
  ]

  -- A push that makes room first, and a run of them.
  abbrev pub bounded_push : ℕ → List A → A → List A
  bounded_push cap q x = (if leb cap (length q) then tail q else q) ++ x ∷ []

  abbrev pub bounded_push_all : ℕ → List A → List A → List A
  bounded_push_all cap q [] = q
  bounded_push_all cap q (x ∷ xs) = bounded_push_all cap (bounded_push cap q x) xs

  pub length-bounded_push :
      (cap : ℕ) (q : List A) (x : A)
      → 0 < cap
      → length q ≤ cap
      → length (bounded_push cap q x) ≤ cap
  length-bounded_push cap q x pos h =
      rw (bounded_push_lem cap x q pos h) (length-keep_last-le cap (q ++ x ∷ []))

  pub bounded_push_all_lem :
      (cap : ℕ) (q xs : List A)
      → 0 < cap
      → length q ≤ cap
      → bounded_push_all cap q xs ≡ keep_last cap (q ++ xs)
  bounded_push_all_lem cap q [] pos h = rw append-nil (sym (keep_last_all cap q h))
  bounded_push_all_lem cap q (x ∷ xs) pos h =
      bounded_push_all_lem cap (bounded_push cap q x) xs pos (length-bounded_push cap q x pos h)
      ∙ rw (bounded_push_lem cap x q pos h, keep_last-append, append_assoc) refl
