-- ===== src/Host/Scene/Unique.antt =====
-- The other players of the scene by key: what is inserted, and what is taken.
use laye.Base.{
  ℕ, ◌≡◌, ◌∙◌, refl, sym, ap, subst, ◌∷◌, [], List, Bytes, Option, none, some, All, bytes_eq,
  bytes_eq_iff, is_empty, arith, Bool-cases, Option-cases, inl, inr,
}
use laye.Base.Maps.{lookup, insert, lookup-insert}
use laye.Frames.{split_frames}
use laye.Host.Scene.{
  RemoteEntry, RemotePlayers, StarterPosition, see_peer, drain_frames, drain_position_events,
  take_entry,
}

module _ {Vec : Type 0} where
  abbrev pub IsUnique : RemotePlayers Vec → Type 0
  IsUnique [] = Unit
  IsUnique ((k, e) ∷ m) = (lookup k m ≡ none) × IsUnique m

  pub insert-IsUnique :
      (k : Bytes) (x : RemoteEntry Vec) (m : RemotePlayers Vec)
      → IsUnique m
      → IsUnique (insert k x m)
  unfolding insert lookup
  insert-IsUnique k x [] v = (refl, tt)
  insert-IsUnique k x ((j, e) ∷ m) (n, v) = elim (Bool-cases (bytes_eq j k)) [
    | inl h ↦ rw (insert, h) (ap (λ i. lookup i m) (sym ((bytes_eq_iff j k).0 h)) ∙ n, v)
    | inr h ↦
        rw (insert, h)
          (
            ground (arith, lookup-insert k j x m, bytes_eq_iff k j, bytes_eq_iff j k, h, n),
            insert-IsUnique k x m v,
          )
  ]

  -- What is taken is gone, and nothing comes in for it.
  pub record IsTaken (peer : Bytes) (m m' : RemotePlayers Vec) : Type 0 where
    pub unique : IsUnique m'
    pub gone : lookup peer m' ≡ none
    pub none_new : (j : Bytes) → lookup j m ≡ none → lookup j m' ≡ none

  pub take_entry-IsTaken :
      (peer : Bytes) (m : RemotePlayers Vec) {x : RemoteEntry Vec} {m' : RemotePlayers Vec}
      → IsUnique m
      → take_entry peer m ≡ some (x, m')
      → IsTaken peer m m'
  unfolding take_entry lookup
  take_entry-IsTaken peer [] v h = absurd (ground (arith, h))
  take_entry-IsTaken peer ((k, e) ∷ m) {x} {m'} (n, v) h = elim (Bool-cases (bytes_eq k peer)) [
    | inl q ↦
        (let same : m ≡ m' = ground (arith, h, q) in
          rw⁻¹ same (record {
            unique = v;
            gone = ap (λ i. lookup i m) (sym ((bytes_eq_iff k peer).0 q)) ∙ n;
            none_new = λ j l. ground (arith, l);
          }))
    | inr q ↦ elim (Option-cases (take_entry peer m)) [
      | inl t ↦ absurd (ground (arith, h, q, t))
      | inr ((y, m1), t) ↦
          (let same : (k, e) ∷ m1 ≡ m' = ground (arith, h, q, t) in
            let rest = take_entry-IsTaken peer m v t in
            rw⁻¹ same (record {
              unique = (rest.none_new k n, rest.unique);
              gone = ground (arith, q, rest.gone);
              none_new = λ j l. ground (arith, l, rest.none_new j);
            }))
    ]
  ]

  pub take_entry-All :
      (P : Bytes × RemoteEntry Vec → Type 0) (peer : Bytes) (m : RemotePlayers Vec)
      {x : RemoteEntry Vec} {m' : RemotePlayers Vec}
      → All P m
      → take_entry peer m ≡ some (x, m')
      → All P m'
  unfolding take_entry
  take_entry-All P peer [] v h = absurd (ground (arith, h))
  take_entry-All P peer ((k, e) ∷ m) {x} {m'} (p, v) h = elim (Bool-cases (bytes_eq k peer)) [
    | inl q ↦ (let same : m ≡ m' = ground (arith, h, q) in subst (All P) same v)
    | inr q ↦ elim (Option-cases (take_entry peer m)) [
      | inl t ↦ absurd (ground (arith, h, q, t))
      | inr ((y, m1), t) ↦
          (let same : (k, e) ∷ m1 ≡ m' = ground (arith, h, q, t) in
            subst (All P) same (p, take_entry-All P peer m v t))
    ]
  ]

  pub take_entry-none :
      (peer : Bytes) (m : RemotePlayers Vec) → take_entry peer m ≡ none → lookup peer m ≡ none
  unfolding take_entry lookup
  take_entry-none peer [] h = refl
  take_entry-none peer ((k, e) ∷ m) h = elim (Bool-cases (bytes_eq k peer)) [
    | inl q ↦ absurd (ground (arith, h, q))
    | inr q ↦ elim (Option-cases (take_entry peer m)) [
      | inl t ↦ ground (arith, q, take_entry-none peer m t)
      | inr (y, t) ↦ absurd (ground (arith, h, q, t))
    ]
  ]

  drain_frames-IsUnique :
      (read : Bytes → Option (StarterPosition Vec)) (self_peer : Bytes) (now : ℕ)
      (frames : List Bytes) (m : RemotePlayers Vec)
      → IsUnique m
      → IsUnique (drain_frames read self_peer now frames m)
  unfolding drain_frames see_peer
  drain_frames-IsUnique read self_peer now [] m v = v
  drain_frames-IsUnique read self_peer now (f ∷ fs) m v = elim (Option-cases (read f)) [
    | inl e ↦ rw (drain_frames, e) (drain_frames-IsUnique read self_peer now fs m v)
    | inr (p, e) ↦ elim (Bool-cases (bytes_eq p.peer self_peer)) [
      | inl s ↦ rw (drain_frames, e, s) (drain_frames-IsUnique read self_peer now fs m v)
      | inr s ↦
          rw (drain_frames, e, s)
            (drain_frames-IsUnique read self_peer now fs (see_peer p.peer p.pos now m)
              (insert-IsUnique p.peer _ m v))
    ]
  ]

  pub drain_position_events-IsUnique :
      (read : Bytes → Option (StarterPosition Vec)) (self_peer : Bytes) (now : ℕ) (buf : Bytes)
      (m : RemotePlayers Vec)
      → IsUnique m
      → IsUnique (drain_position_events read self_peer now buf m)
  unfolding drain_position_events
  drain_position_events-IsUnique read self_peer now buf m v = elim (Bool-cases (is_empty buf)) [
    | inl e ↦ rw (drain_position_events, e) v
    | inr e ↦
        rw (drain_position_events, e)
          (drain_frames-IsUnique read self_peer now (split_frames buf) m v)
  ]
