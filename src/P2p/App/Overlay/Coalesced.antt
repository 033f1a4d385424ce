-- ===== src/P2p/App/Overlay/Coalesced.antt =====
-- One node for all errors of a kind, and how often it came.
use laye.Base.{
  ◌≡◌, refl, ◌+◌, ◌∷◌, [], List, Bytes, Bool, true, not, ◌||◌, is_empty, bytes_eq, ◌≤◌,
  if◌then◌else◌, arith, All, Option-cases, inl, inr,
}
use laye.Base.Maps.{lookup}
use laye.P2p.Errors.{Error, Pipe, drain}
use laye.P2p.App.Overlay.{Node, Overlay, dedup_key, render_next, render_all, render_errors}
use laye.P2p.App.Overlay.Tidy.{
  tally, nodes_of, shown_count, Owned, IsTold, IsTidy, append_error-IsTidy,
  bump_error_counter-IsTidy, shown_count-append_error, shown_count-bump_error_counter,
}

render_errors-render_all :
    (create : Error → Bool) (o : Overlay) (p : Pipe)
    → o.mounted ≡ true
    → (render_errors true create o p).0 ≡ render_all create p.buffer o
unfolding render_errors drain render_all
render_errors-render_all create o p m = go p.buffer
  where
    go :
        (xs : List Error)
        → (if is_empty xs || not true || not o.mounted then o else render_all create xs o)
          ≡ render_all create xs o
    go [] = refl
    go (x ∷ xs) = rw m refl

module _ (owner : Bytes → Bytes) where
  render_next-IsTidy :
      (create : Error → Bool) (x : Error) (o : Overlay)
      → create x ≡ true
      → IsTidy owner o
      → owner x.id ≡ dedup_key x
      → IsTidy owner (render_next create x o)
  unfolding render_next
  render_next-IsTidy create x o c v q = elim (Option-cases (lookup (dedup_key x) o.error_dedup)) [
    | inl e ↦ rw (render_next, e, c) (append_error-IsTidy owner x o v q e)
    | inr (j, e) ↦ rw (render_next, e) (bump_error_counter-IsTidy owner j o v)
  ]

  shown_count-render_next :
      (create : Error → Bool) (x : Error) (o : Overlay)
      → create x ≡ true
      → IsTidy owner o
      → owner x.id ≡ dedup_key x
      → (k : Bytes)
      → shown_count k (render_next create x o)
        ≡ shown_count k o + (if bytes_eq (dedup_key x) k then 1 else 0)
  unfolding render_next
  shown_count-render_next create x o c v q k =
      elim (Option-cases (lookup (dedup_key x) o.error_dedup)) [
        | inl e ↦ rw (render_next, e, c) (shown_count-append_error owner x o v q e k)
        | inr (j, e) ↦ rw (render_next, e) (shown_count-bump_error_counter owner x j o v e k)
      ]

  render_all-IsTidy :
      (create : Error → Bool) (xs : List Error) (o : Overlay)
      → All (λ (x : Error). create x ≡ true) xs
      → Owned owner xs
      → IsTidy owner o
      → IsTidy owner (render_all create xs o)
  unfolding render_all
  render_all-IsTidy create [] o c q v = v
  render_all-IsTidy create (x ∷ xs) o (c, cs) (q, qs) v =
      render_all-IsTidy create xs (render_next create x o) cs qs
        (render_next-IsTidy create x o c v q)

  shown_count-render_all :
      (create : Error → Bool) (xs : List Error) (o : Overlay)
      → All (λ (x : Error). create x ≡ true) xs
      → Owned owner xs
      → IsTidy owner o
      → (k : Bytes) → shown_count k (render_all create xs o) ≡ shown_count k o + tally k xs
  unfolding render_all
  shown_count-render_all create [] o c q v k = omega arith
  shown_count-render_all create (x ∷ xs) o (c, cs) (q, qs) v k = omega (
    arith,
    shown_count-render_next create x o c v q k,
    shown_count-render_all create xs (render_next create x o) cs qs
        (render_next-IsTidy create x o c v q) k,
  )

  IsTold-shown_count :
      (o r : Overlay) (xs : List Error) (ys : List Node)
      → ((k : Bytes) → shown_count k r ≡ shown_count k o + tally k xs)
      → All (IsTold owner r.error_dedup r.error_counts) ys
      → All
          (λ (y : Node).
            y.counter ≡ shown_count (dedup_key y.error) o + tally (dedup_key y.error) xs)
          ys
  IsTold-shown_count o r xs [] h v = tt
  IsTold-shown_count o r xs (y ∷ ys) h ((a, (b, c)), vs) =
      (ground (arith, b, c, h (dedup_key y.error)), IsTold-shown_count o r xs ys h vs)

  -- Where errors with one id have one key, rendering keeps the overlay tidy: every known key has one
  -- node, and what that node says is the count that is kept.
  pub render_errors-IsTidy :
      (create : Error → Bool) (o : Overlay) (p : Pipe)
      → All (λ (x : Error). create x ≡ true) p.buffer
      → Owned owner p.buffer
      → IsTidy owner o
      → o.mounted ≡ true
      → IsTidy owner (render_errors true create o p).0
  render_errors-IsTidy create o p c q v m =
      rw (render_errors-render_all create o p m) (render_all-IsTidy create p.buffer o c q v)

  -- Where the overlay is mounted and tidy, the browser makes the nodes, and errors with one id have one
  -- key, rendering what waits leaves one node for each key that has come, and every node says how often
  -- its key had come before and among the errors that waited.
  pub render_errors-tally :
      (create : Error → Bool) (o : Overlay) (p : Pipe)
      → All (λ (x : Error). create x ≡ true) p.buffer
      → Owned owner p.buffer
      → IsTidy owner o
      → o.mounted ≡ true
      → (k : Bytes) → 1 ≤ shown_count k o + tally k p.buffer
      → (nodes_of k (render_errors true create o p).0.nodes ≡ 1)
        × All
            (λ (y : Node).
              y.counter ≡ shown_count (dedup_key y.error) o + tally (dedup_key y.error) p.buffer)
            (render_errors true create o p).0.nodes
  render_errors-tally create o p c q v m k h =
      let r = (render_errors true create o p).0 in
      let tidy = render_errors-IsTidy create o p c q v m in
      let counts : (j : Bytes) → shown_count j r ≡ shown_count j o + tally j p.buffer = λ j.
        rw (render_errors-render_all create o p m)
          (shown_count-render_all create p.buffer o c q v j) in
      (
        ground (arith, h, counts k, tidy.one_node k),
        IsTold-shown_count o r p.buffer r.nodes counts tidy.told,
      )
