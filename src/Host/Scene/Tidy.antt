-- ===== src/Host/Scene/Tidy.antt =====
-- Every cell in the world is the cell of one other player, and of one only.
use laye.Base.{
  ℕ, ◌≡◌, ◌∙◌, refl, ap, ◌+◌, ◌==◌, ◌∷◌, [], List, Bytes, Option, none, some, is_some, bytes_eq,
  is_empty, if◌then◌else◌, arith, Bool-cases, Option-cases, inl, inr,
}
use laye.Base.Maps.{lookup, insert}
use laye.Frames.{split_frames}
use laye.Host.Scene.{
  RemoteEntry, RemotePlayers, Cells, StarterPosition, see_peer, drain_frames, drain_position_events,
  take_entry, remove_stale,
}

-- What bevy promises: a new entity is none that lives, and the others are as they were.
pub record IsLawful {World Vec : Type 0} (cells : Cells World Vec) : Type 0 where
  pub spawn-fresh : (v : Vec) (w : World) → cells.cell (cells.spawn v w).0 w ≡ none
  pub cell-spawn :
      (i : ℕ) (v : Vec) (w : World)
      → cells.cell i (cells.spawn v w).1
        ≡ (if (cells.spawn v w).0 == i then some v else cells.cell i w)
  pub cell-despawn :
      (i j : ℕ) (w : World)
      → cells.cell i (cells.despawn j w) ≡ (if j == i then none else cells.cell i w)
  pub cell-move_to :
      (i j : ℕ) (v : Vec) (w : World)
      → cells.cell i (cells.move_to j v w) ≡ (
          if j == i
          then elim (cells.cell i w) [ none ↦ none | some u ↦ some v ]
          else cells.cell i w)

abbrev pub owns : ℕ → Option ℕ → ℕ
owns i none = 0
owns i (some j) = if j == i then 1 else 0

module _ {Vec : Type 0} where
  -- How many of the players have the cell.
  abbrev pub owners : ℕ → RemotePlayers Vec → ℕ
  owners i [] = 0
  owners i ((peer, e) ∷ m) = owns i e.entity + owners i m

  abbrev kept : Bytes → RemotePlayers Vec → Option ℕ
  kept peer m = elim (lookup peer m) [ none ↦ none | some e ↦ e.entity ]

  owners-insert :
      (i : ℕ) (peer : Bytes) (x : RemoteEntry Vec) (m : RemotePlayers Vec)
      → x.entity ≡ kept peer m
      → owners i (insert peer x m) ≡ owners i m
  unfolding insert lookup
  owners-insert i peer x [] q = rw q refl
  owners-insert i peer x ((k, e) ∷ m) q = elim (Bool-cases (bytes_eq k peer)) [
    | inl h ↦
        let same : x.entity ≡ e.entity = rw (kept, lookup, h) at q in rw (insert, h, same) refl
    | inr h ↦
        let same : x.entity ≡ kept peer m = rw (kept, lookup, h) at q in
        rw (insert, h) (ap (λ n. owns i e.entity + n) (owners-insert i peer x m same))
  ]

  owners-take_entry :
      (i : ℕ) (peer : Bytes) (m : RemotePlayers Vec) {e : RemoteEntry Vec} {m' : RemotePlayers Vec}
      → take_entry peer m ≡ some (e, m')
      → owners i m ≡ owns i e.entity + owners i m'
  unfolding take_entry
  owners-take_entry i peer [] h = absurd (ground (arith, h))
  owners-take_entry i peer ((k, x) ∷ m) h = elim (Bool-cases (bytes_eq k peer)) [
    | inl q ↦ ground (arith, h, q)
    | inr q ↦ elim (Option-cases (take_entry peer m)) [
      | inl t ↦ absurd (ground (arith, h, q, t))
      | inr ((y, n), t) ↦ ground (arith, h, q, t, owners-take_entry i peer m t)
    ]
  ]

  module _ {World : Type 0} (cells : Cells World Vec) where
    abbrev pub live : ℕ → World → ℕ
    live i w = if is_some (cells.cell i w) then 1 else 0

    abbrev pub IsTidy : RemotePlayers Vec → World → Type 0
    IsTidy m w = (i : ℕ) → owners i m ≡ live i w

    see_peer-IsTidy :
        (peer : Bytes) (pos : Vec) (now : ℕ) (m : RemotePlayers Vec) (w : World)
        → IsTidy m w
        → IsTidy (see_peer peer pos now m) w
    unfolding see_peer
    see_peer-IsTidy peer pos now m w v i = owners-insert i peer _ m refl ∙ v i

    drain_frames-IsTidy :
        (read : Bytes → Option (StarterPosition Vec)) (self_peer : Bytes) (now : ℕ)
        (frames : List Bytes) (m : RemotePlayers Vec) (w : World)
        → IsTidy m w
        → IsTidy (drain_frames read self_peer now frames m) w
    unfolding drain_frames
    drain_frames-IsTidy read self_peer now [] m w v = v
    drain_frames-IsTidy read self_peer now (f ∷ fs) m w v = elim (Option-cases (read f)) [
      | inl e ↦ rw (drain_frames, e) (drain_frames-IsTidy read self_peer now fs m w v)
      | inr (p, e) ↦ elim (Bool-cases (bytes_eq p.peer self_peer)) [
        | inl s ↦ rw (drain_frames, e, s) (drain_frames-IsTidy read self_peer now fs m w v)
        | inr s ↦
            rw (drain_frames, e, s)
              (drain_frames-IsTidy read self_peer now fs (see_peer p.peer p.pos now m) w
                (see_peer-IsTidy p.peer p.pos now m w v))
      ]
    ]

    -- However the positions of the others come in, no cell is lost or shared.
    pub drain_position_events-IsTidy :
        (read : Bytes → Option (StarterPosition Vec)) (self_peer : Bytes) (now : ℕ) (buf : Bytes)
        (m : RemotePlayers Vec) (w : World)
        → IsTidy m w
        → IsTidy (drain_position_events read self_peer now buf m) w
    unfolding drain_position_events
    drain_position_events-IsTidy read self_peer now buf m w v = elim (Bool-cases (is_empty buf)) [
      | inl e ↦ rw (drain_position_events, e) v
      | inr e ↦
          rw (drain_position_events, e)
            (drain_frames-IsTidy read self_peer now (split_frames buf) m w v)
    ]

    pub remove_stale-IsTidy :
        (laws : IsLawful cells) (peers : List Bytes) (m : RemotePlayers Vec) (w : World)
        → IsTidy m w
        → IsTidy (remove_stale cells peers m w).0 (remove_stale cells peers m w).1
    unfolding remove_stale
    remove_stale-IsTidy laws [] m w v = v
    remove_stale-IsTidy laws (peer ∷ peers) m w v = elim (Option-cases (take_entry peer m)) [
      | inl t ↦ rw (remove_stale, t) (remove_stale-IsTidy laws peers m w v)
      | inr ((e, m'), t) ↦ elim (Option-cases e.entity) [
        | inl n ↦
            rw (remove_stale, t, n)
              (remove_stale-IsTidy laws peers m' w
                (λ i. ground (arith, n, v i, owners-take_entry i peer m t)))
        | inr (j, n) ↦
            rw (remove_stale, t, n)
              (remove_stale-IsTidy laws peers m' (cells.despawn j w) (λ i.
                ground (arith, n, v i, owners-take_entry i peer m t, laws.cell-despawn i j w)))
      ]
    ]
