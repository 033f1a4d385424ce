-- ===== src/Base/Maps.antt =====
-- A `HashMap` with byte-string keys as an association list, and a `HashSet` as a list with no
-- duplicates. The order of the list stands for the unspecified order of iteration.
use laye.Base.Tests.{if◌then◌else◌, Bool-cases}
use laye.Base.Lists.{All}
use laye.Base.Texts.{Bytes, bytes_eq, bytes_eq_iff, bytes_eq_refl}
use mathlib.Core.Path.{◌≡◌, refl}
use mathlib.Core.Logic.{◌≢◌, inl, inr}
use mathlib.Core.Bool.{Bool, true, false}
use mathlib.Core.List.{List, [], ◌∷◌}
use mathlib.Core.Option.{Option, none, some}
use native.Mathlib.Omega.{arith}

abbrev pub Map {ℓ} : Type ℓ → Type ℓ
Map V = List (Bytes × V)

module _ {ℓ} {V : Type ℓ} where
  unfoldable pub lookup : Bytes → Map V → Option V
  lookup k [] = none
  lookup k ((j, v) ∷ m) = if bytes_eq j k then some v else lookup k m

  unfoldable pub insert : Bytes → V → Map V → Map V
  insert k v [] = (k, v) ∷ []
  insert k v ((j, w) ∷ m) = if bytes_eq j k then (k, v) ∷ m else (j, w) ∷ insert k v m

  -- Every entry of the key goes, so the law needs no invariant.
  unfoldable pub remove : Bytes → Map V → Map V
  remove k [] = []
  remove k ((j, w) ∷ m) = if bytes_eq j k then remove k m else (j, w) ∷ remove k m

  -- `map.entry(k).or_default()` read.
  abbrev pub lookup_or : V → Bytes → Map V → V
  lookup_or d k m = elim (lookup k m) [ none ↦ d | some v ↦ v ]

  pub lookup-insert :
      (k j : Bytes) (v : V) (m : Map V)
      → lookup j (insert k v m) ≡ (if bytes_eq k j then some v else lookup j m)
  unfolding lookup insert
  lookup-insert k j v [] = refl
  lookup-insert k j v ((i, w) ∷ m) =
      ground (arith, bytes_eq_iff k j, bytes_eq_iff i k, bytes_eq_iff i j, lookup-insert k j v m)

  pub lookup-insert_self : (k : Bytes) (v : V) (m : Map V) → lookup k (insert k v m) ≡ some v
  lookup-insert_self k v m = ground (arith, lookup-insert k k v m, bytes_eq_refl k)

  pub lookup-insert_ne :
      (k j : Bytes) (v : V) (m : Map V) → k ≢ j → lookup j (insert k v m) ≡ lookup j m
  lookup-insert_ne k j v m h = ground (arith, lookup-insert k j v m, bytes_eq_iff k j)

  pub lookup-remove :
      (k j : Bytes) (m : Map V)
      → lookup j (remove k m) ≡ (if bytes_eq k j then none else lookup j m)
  unfolding lookup remove
  lookup-remove k j [] = ground arith
  lookup-remove k j ((i, w) ∷ m) =
      ground (arith, bytes_eq_iff k j, bytes_eq_iff i k, bytes_eq_iff i j, lookup-remove k j m)

-- Sets of byte strings.
unfoldable pub contains : Bytes → List Bytes → Bool
contains k [] = false
contains k (j ∷ s) = if bytes_eq j k then true else contains k s

unfoldable pub add : Bytes → List Bytes → List Bytes
unfolding contains
add k s = if contains k s then s else k ∷ s

unfoldable pub delete : Bytes → List Bytes → List Bytes
delete k [] = []
delete k (j ∷ s) = if bytes_eq j k then delete k s else j ∷ delete k s

pub contains-add :
    (k j : Bytes) (s : List Bytes)
    → contains j (add k s) ≡ (if bytes_eq k j then true else contains j s)
unfolding contains add
contains-add k j s = ground (arith, bytes_eq_iff k j)

pub contains-delete :
    (k j : Bytes) (s : List Bytes)
    → contains j (delete k s) ≡ (if bytes_eq k j then false else contains j s)
unfolding contains delete
contains-delete k j [] = ground arith
contains-delete k j (i ∷ s) =
    ground (arith, bytes_eq_iff k j, bytes_eq_iff i k, bytes_eq_iff i j, contains-delete k j s)

-- A predicate of every entry.
module _ {ℓ} {V : Type ℓ} (P : Bytes × V → Type ℓ) where
  pub All-insert : (k : Bytes) (v : V) (m : Map V) → P (k, v) → All P m → All P (insert k v m)
  unfolding insert
  All-insert k v [] p a = (p, tt)
  All-insert k v ((j, w) ∷ m) p a = elim (Bool-cases (bytes_eq j k)) [
    | inl e ↦ rw (insert, e) (p, a.1)
    | inr e ↦ rw (insert, e) (a.0, All-insert k v m p a.1)
  ]

  pub All-remove : (k : Bytes) (m : Map V) → All P m → All P (remove k m)
  unfolding remove
  All-remove k [] a = tt
  All-remove k ((j, w) ∷ m) a = elim (Bool-cases (bytes_eq j k)) [
    | inl e ↦ rw (remove, e) (All-remove k m a.1)
    | inr e ↦ rw (remove, e) (a.0, All-remove k m a.1)
  ]
