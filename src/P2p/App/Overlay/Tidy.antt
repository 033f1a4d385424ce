-- ===== src/P2p/App/Overlay/Tidy.antt =====
-- What the overlay keeps of an error's key, and that showing an error keeps it.
use laye.Base.{
  ℕ, ◌≡◌, ◌∙◌, refl, ◌+◌, ◌∷◌, [], ◌++◌, List, Bytes, true, false, none, some, is_some, bytes_eq,
  bytes_eq_iff, ◌≤◌, if◌then◌else◌, arith, All, All-append, Option-cases, Bool-cases, inl, inr,
}
use laye.Base.Maps.{Map, lookup, lookup_or, insert, lookup-insert, lookup-insert_self}
use laye.P2p.Errors.{Error}
use laye.P2p.App.Overlay.{
  Node, Overlay, dedup_key, show_count, bump_error_counter, fresh_node, append_error,
}

-- How many errors have the key.
abbrev pub tally : Bytes → List Error → ℕ
tally k [] = 0
tally k (x ∷ xs) = (if bytes_eq (dedup_key x) k then 1 else 0) + tally k xs

-- How many nodes show an error with the key.
abbrev pub nodes_of : Bytes → List Node → ℕ
nodes_of k [] = 0
nodes_of k (x ∷ xs) = (if bytes_eq (dedup_key x.error) k then 1 else 0) + nodes_of k xs

-- The count that the overlay keeps of a key.
abbrev pub shown_count : Bytes → Overlay → ℕ
shown_count k o = elim (lookup k o.error_dedup) [
  | none ↦ 0
  | some id ↦ lookup_or 0 id o.error_counts
]

abbrev has_key : Bytes → Overlay → ℕ
has_key k o = if is_some (lookup k o.error_dedup) then 1 else 0

nodes_of-append :
    (k : Bytes) (xs : List Node) (y : Node)
    → nodes_of k (xs ++ y ∷ []) ≡ nodes_of k xs + (if bytes_eq (dedup_key y.error) k then 1 else 0)
nodes_of-append k [] y = omega arith
nodes_of-append k (x ∷ xs) y = omega (arith, nodes_of-append k xs y)

nodes_of-show_count :
    (k id : Bytes) (n : ℕ) (xs : List Node) → nodes_of k (show_count id n xs) ≡ nodes_of k xs
unfolding show_count
nodes_of-show_count k id n [] = refl
nodes_of-show_count k id n (x ∷ xs) = elim (Bool-cases (bytes_eq x.error.id id)) [
  | inl e ↦ rw (show_count, e) refl
  | inr e ↦ rw (show_count, e) (omega (arith, nodes_of-show_count k id n xs))
]

-- `owner` names the key that an id stands for: errors of one id have one key.
abbrev pub Owned : (Bytes → Bytes) → List Error → Type 0
Owned owner = All (λ (x : Error). owner x.id ≡ dedup_key x)

-- The node is known under its key, and its counter says what the count is.
abbrev pub IsTold : (Bytes → Bytes) → Map Bytes → Map ℕ → Node → Type 0
IsTold owner dedup counts y =
    (owner y.error.id ≡ dedup_key y.error)
    × ((lookup (dedup_key y.error) dedup ≡ some y.error.id)
        × (lookup y.error.id counts ≡ some y.counter))

-- Every key that is known leads to an id of its own, which has a count, and to one node.
pub record IsTidy (owner : Bytes → Bytes) (o : Overlay) : Type 0 where
  pub own : (k id : Bytes) → lookup k o.error_dedup ≡ some id → owner id ≡ k
  pub counted :
      (k id : Bytes) → lookup k o.error_dedup ≡ some id → is_some (lookup id o.error_counts) ≡ true
  pub one_node : (k : Bytes) → nodes_of k o.nodes ≡ has_key k o
  pub told : All (IsTold owner o.error_dedup o.error_counts) o.nodes

module _ (owner : Bytes → Bytes) where
  IsTold-insert :
      (x : Error) (y : Node) (dedup : Map Bytes) (counts : Map ℕ)
      → owner x.id ≡ dedup_key x
      → lookup (dedup_key x) dedup ≡ none
      → IsTold owner dedup counts y
      → IsTold owner (insert (dedup_key x) x.id dedup) (insert x.id 1 counts) y
  IsTold-insert x y dedup counts q h (a, (b, c)) = (
    a,
    (
      ground (
        arith,
        b,
        h,
        lookup-insert (dedup_key x) (dedup_key y.error) x.id dedup,
        bytes_eq_iff (dedup_key x) (dedup_key y.error),
      ),
      ground (
        arith,
        a,
        b,
        c,
        h,
        q,
        lookup-insert x.id y.error.id 1 counts,
        bytes_eq_iff x.id y.error.id,
      ),
    ),
  )

  -- A node of another key keeps what it says.
  IsTold-count :
      (j : Bytes) (n : ℕ) (y : Node) (dedup : Map Bytes) (counts : Map ℕ)
      → bytes_eq (dedup_key y.error) (owner j) ≡ false
      → IsTold owner dedup counts y
      → IsTold owner dedup (insert j n counts) y
  IsTold-count j n y dedup counts h (a, (b, c)) = (
    a,
    (
      b,
      ground (
        arith,
        a,
        c,
        h,
        lookup-insert j y.error.id n counts,
        bytes_eq_iff j y.error.id,
        bytes_eq_iff (dedup_key y.error) (owner j),
      ),
    ),
  )

  IsTold-insert_list :
      (x : Error) (xs : List Node) (dedup : Map Bytes) (counts : Map ℕ)
      → owner x.id ≡ dedup_key x
      → lookup (dedup_key x) dedup ≡ none
      → All (IsTold owner dedup counts) xs
      → All (IsTold owner (insert (dedup_key x) x.id dedup) (insert x.id 1 counts)) xs
  IsTold-insert_list x [] dedup counts q h v = v
  IsTold-insert_list x (y ∷ ys) dedup counts q h (v, vs) =
      (IsTold-insert x y dedup counts q h v, IsTold-insert_list x ys dedup counts q h vs)

  IsTold-others :
      (j : Bytes) (n : ℕ) (xs : List Node) (dedup : Map Bytes) (counts : Map ℕ)
      → nodes_of (owner j) xs ≡ 0
      → All (IsTold owner dedup counts) xs
      → All (IsTold owner dedup (insert j n counts)) xs
  IsTold-others j n [] dedup counts h v = v
  IsTold-others j n (y ∷ ys) dedup counts h (v, vs) = (
    IsTold-count j n y dedup counts (ground (arith, h)) v,
    IsTold-others j n ys dedup counts (ground (arith, h)) vs,
  )

  IsTold-show_count :
      (j : Bytes) (n : ℕ) (xs : List Node) (dedup : Map Bytes) (counts : Map ℕ)
      → nodes_of (owner j) xs ≤ 1
      → All (IsTold owner dedup counts) xs
      → All (IsTold owner dedup (insert j n counts)) (show_count j n xs)
  unfolding show_count
  IsTold-show_count j n [] dedup counts h v = v
  IsTold-show_count j n (y ∷ ys) dedup counts h (v, vs) =
      elim (Bool-cases (bytes_eq y.error.id j)) [
        | inl e ↦
            rw (show_count, e)
              (
                (
                  v.0,
                  (
                    v.1.0,
                    ground (arith, e, bytes_eq_iff y.error.id j, lookup-insert_self j n counts),
                  ),
                ),
                IsTold-others j n ys dedup counts
                    (ground (
                      arith,
                      h,
                      e,
                      v.0,
                      bytes_eq_iff y.error.id j,
                      bytes_eq_iff (dedup_key y.error) (owner j),
                    ))
                    vs,
              )
        | inr e ↦
            rw (show_count, e)
              (
                (
                  v.0,
                  (
                    v.1.0,
                    ground (
                      arith,
                      e,
                      v.1.1,
                      bytes_eq_iff y.error.id j,
                      lookup-insert j y.error.id n counts,
                      bytes_eq_iff j y.error.id,
                    ),
                  ),
                ),
                IsTold-show_count j n ys dedup counts (omega (arith, h)) vs,
              )
      ]

  pub append_error-IsTidy :
      (x : Error) (o : Overlay)
      → IsTidy owner o
      → owner x.id ≡ dedup_key x
      → lookup (dedup_key x) o.error_dedup ≡ none
      → IsTidy owner (append_error (dedup_key x) x o)
  unfolding append_error
  append_error-IsTidy x o v q h = record {
    own = λ k id g. ground (
      arith,
      lookup-insert (dedup_key x) k x.id o.error_dedup,
      bytes_eq_iff (dedup_key x) k,
      v.own k id,
      q,
    );
    counted = λ k id g. ground (
      arith,
      lookup-insert (dedup_key x) k x.id o.error_dedup,
      bytes_eq_iff (dedup_key x) k,
      v.counted k id,
      lookup-insert x.id id 1 o.error_counts,
      bytes_eq_iff x.id id,
    );
    one_node = λ k. ground (
      arith,
      nodes_of-append k o.nodes (fresh_node x),
      v.one_node k,
      lookup-insert (dedup_key x) k x.id o.error_dedup,
      bytes_eq_iff (dedup_key x) k,
      h,
    );
    told =
        All-append
          (IsTold owner (insert (dedup_key x) x.id o.error_dedup) (insert x.id 1 o.error_counts))
          o.nodes (fresh_node x ∷ [])
          (IsTold-insert_list x o.nodes o.error_dedup o.error_counts q h v.told)
          (
            (
              q,
              (
                lookup-insert_self (dedup_key x) x.id o.error_dedup,
                lookup-insert_self x.id 1 o.error_counts,
              ),
            ),
            tt,
          );
  }

  pub bump_error_counter-IsTidy :
      (j : Bytes) (o : Overlay) → IsTidy owner o → IsTidy owner (bump_error_counter j o)
  unfolding bump_error_counter
  bump_error_counter-IsTidy j o v = record {
    own = v.own;
    counted = λ k id g. ground (
      arith,
      v.counted k id g,
      lookup-insert j id (lookup_or 1 j o.error_counts + 1) o.error_counts,
      bytes_eq_iff j id,
    );
    one_node =
        λ k. nodes_of-show_count k j (lookup_or 1 j o.error_counts + 1) o.nodes ∙ v.one_node k;
    told =
        IsTold-show_count j (lookup_or 1 j o.error_counts + 1) o.nodes o.error_dedup o.error_counts
          (ground (arith, v.one_node (owner j))) v.told;
  }

  pub shown_count-append_error :
      (x : Error) (o : Overlay)
      → IsTidy owner o
      → owner x.id ≡ dedup_key x
      → lookup (dedup_key x) o.error_dedup ≡ none
      → (k : Bytes)
      → shown_count k (append_error (dedup_key x) x o)
        ≡ shown_count k o + (if bytes_eq (dedup_key x) k then 1 else 0)
  unfolding append_error
  shown_count-append_error x o v q h k = elim (Option-cases (lookup k o.error_dedup)) [
    | inl none_here ↦ ground (
      arith,
      none_here,
      lookup-insert (dedup_key x) k x.id o.error_dedup,
      bytes_eq_iff (dedup_key x) k,
      h,
      lookup-insert_self x.id 1 o.error_counts,
    )
    | inr (id, here) ↦ ground (
      arith,
      here,
      lookup-insert (dedup_key x) k x.id o.error_dedup,
      bytes_eq_iff (dedup_key x) k,
      h,
      q,
      v.own k id here,
      lookup-insert x.id id 1 o.error_counts,
      bytes_eq_iff x.id id,
    )
  ]

  pub shown_count-bump_error_counter :
      (x : Error) (j : Bytes) (o : Overlay)
      → IsTidy owner o
      → lookup (dedup_key x) o.error_dedup ≡ some j
      → (k : Bytes)
      → shown_count k (bump_error_counter j o)
        ≡ shown_count k o + (if bytes_eq (dedup_key x) k then 1 else 0)
  unfolding bump_error_counter
  shown_count-bump_error_counter x j o v h k = elim (Option-cases (lookup k o.error_dedup)) [
    | inl none_here ↦ ground (arith, none_here, h, bytes_eq_iff (dedup_key x) k)
    | inr (id, here) ↦ ground (
      arith,
      here,
      h,
      bytes_eq_iff (dedup_key x) k,
      v.own k id here,
      v.own (dedup_key x) j h,
      v.counted k id here,
      lookup-insert j id (lookup_or 1 j o.error_counts + 1) o.error_counts,
      bytes_eq_iff j id,
    )
  ]
