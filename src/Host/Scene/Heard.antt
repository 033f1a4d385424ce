-- ===== src/Host/Scene/Heard.antt =====
-- What the scene has heard of the other players, the newest first.
use laye.Base.{
  ℕ, ◌≡◌, ◌∙◌, refl, sym, ap, subst, ◌<◌, ◌-◌, ◌^◌, ◌∷◌, [], List, Bytes, Option, none, some, All,
  bytes_eq, bytes_eq_iff, codes, if◌then◌else◌, arith, Bool-cases, Option-cases, inl, inr,
}
use laye.Base.Maps.{Map, lookup, insert}
use laye.Frames.{recv_bytes, split_frames}
use laye.Frames.Framing.{size}
use laye.Frames.Drain.{split_frames-recv_bytes}
use laye.Host.Scene.{
  RemoteEntry, RemotePlayers, Cells, StarterPosition, see_peer, drain_frames, drain_position_events,
  stale_peers, stale_ms, take_entry, remove_stale, show_entry, show_all, render_remote_players,
}
use laye.Host.Scene.Unique.{IsUnique, take_entry-All, insert-IsUnique}
use laye.Host.Scene.Fresh.{show_entry-last_seen_ms}

abbrev positions_topic : Bytes
positions_topic = codes "rave-positions/v1"

-- The buffer that `recv_bytes` gives of what waits on the topic of the positions.
abbrev pub handed : List Bytes → Bytes
handed arrived =
    (recv_bytes positions_topic (record { queues = (positions_topic, arrived) ∷ [] })).0

split_frames-handed :
    (arrived : List Bytes) → size arrived < 2 ^ 32 → split_frames (handed arrived) ≡ arrived
unfolding lookup bytes_eq
split_frames-handed arrived h =
    (split_frames-recv_bytes positions_topic []
      (record { queues = (positions_topic, arrived) ∷ [] }) h cc).0

module _ {Vec : Type 0} where
  -- Where a player said that it stood, and when that was read, newest first. What does not parse tells
  -- nothing, nor what the page itself has sent.
  abbrev pub heard :
      (Bytes → Option (StarterPosition Vec))
      → Bytes
      → ℕ
      → List Bytes
      → Map (Vec × ℕ)
      → Map (Vec × ℕ)
  heard read self_peer now [] log = log
  heard read self_peer now (payload ∷ payloads) log =
      heard read self_peer now payloads (elim (read payload) [
        | none ↦ log
        | some p ↦ if bytes_eq p.peer self_peer then log else (p.peer, (p.pos, now)) ∷ log
      ])

  -- The entry holds what was heard last of its player.
  abbrev pub IsLatest : Map (Vec × ℕ) → Bytes × RemoteEntry Vec → Type 0
  IsLatest log entry = lookup entry.0 log ≡ some (entry.1.pos, entry.1.last_seen_ms)

  IsLatest-others :
      (log : Map (Vec × ℕ)) (k : Bytes) (v : Vec × ℕ) (m : RemotePlayers Vec)
      → lookup k m ≡ none
      → All (IsLatest log) m
      → All (IsLatest ((k, v) ∷ log)) m
  unfolding lookup
  IsLatest-others log k v [] h l = tt
  IsLatest-others log k v ((j, e) ∷ m) h (l, ls) = (
    ground (arith, l, h, bytes_eq_iff k j, bytes_eq_iff j k),
    IsLatest-others log k v m (ground (arith, h)) ls,
  )

  insert-IsLatest :
      (log : Map (Vec × ℕ)) (k : Bytes) (x : RemoteEntry Vec) (m : RemotePlayers Vec)
      → IsUnique m
      → All (IsLatest log) m
      → All (IsLatest ((k, (x.pos, x.last_seen_ms)) ∷ log)) (insert k x m)
  unfolding insert lookup
  insert-IsLatest log k x [] u l = (ground (arith, bytes_eq_iff k k), tt)
  insert-IsLatest log k x ((j, e) ∷ m) (n, u) (l, ls) = elim (Bool-cases (bytes_eq j k)) [
    | inl h ↦
        rw (insert, h)
          (
            ground (arith, bytes_eq_iff k k),
            IsLatest-others log k _ m (ap (λ i. lookup i m) (sym ((bytes_eq_iff j k).0 h)) ∙ n) ls,
          )
    | inr h ↦
        rw (insert, h)
          (ground (arith, l, h, bytes_eq_iff k j, bytes_eq_iff j k), insert-IsLatest log k x m u ls)
  ]

  drain_frames-IsLatest :
      (read : Bytes → Option (StarterPosition Vec)) (self_peer : Bytes) (now : ℕ)
      (payloads : List Bytes) (log : Map (Vec × ℕ)) (m : RemotePlayers Vec)
      → IsUnique m
      → All (IsLatest log) m
      → All
          (IsLatest (heard read self_peer now payloads log))
          (drain_frames read self_peer now payloads m)
  unfolding drain_frames see_peer
  drain_frames-IsLatest read self_peer now [] log m u l = l
  drain_frames-IsLatest read self_peer now (b ∷ bs) log m u l = elim (Option-cases (read b)) [
    | inl e ↦ rw (drain_frames, e) (drain_frames-IsLatest read self_peer now bs log m u l)
    | inr (p, e) ↦ elim (Bool-cases (bytes_eq p.peer self_peer)) [
      | inl s ↦ rw (drain_frames, e, s) (drain_frames-IsLatest read self_peer now bs log m u l)
      | inr s ↦
          rw (drain_frames, e, s)
            (drain_frames-IsLatest read self_peer now bs ((p.peer, (p.pos, now)) ∷ log)
              (see_peer p.peer p.pos now m) (insert-IsUnique p.peer _ m u)
              (insert-IsLatest log p.peer _ m u l))
    ]
  ]

  -- The test of the buffer only spares the call.
  drain_position_events_lem :
      (read : Bytes → Option (StarterPosition Vec)) (self_peer : Bytes) (now : ℕ) (buf : Bytes)
      (m : RemotePlayers Vec)
      → drain_position_events read self_peer now buf m
        ≡ drain_frames read self_peer now (split_frames buf) m
  unfolding drain_position_events drain_frames split_frames
  drain_position_events_lem read self_peer now [] m = refl
  drain_position_events_lem read self_peer now (b ∷ buf) m = refl

  -- Between the two systems, the framing comes and goes.
  drain_position_events-handed :
      (read : Bytes → Option (StarterPosition Vec)) (self_peer : Bytes) (now : ℕ)
      (arrived : List Bytes) (m : RemotePlayers Vec)
      → size arrived < 2 ^ 32
      → drain_position_events read self_peer now (handed arrived) m
        ≡ drain_frames read self_peer now arrived m
  drain_position_events-handed read self_peer now arrived m h =
      drain_position_events_lem read self_peer now (handed arrived) m
      ∙ ap (λ payloads. drain_frames read self_peer now payloads m) (split_frames-handed arrived h)

  pub drain_position_events-IsLatest :
      (read : Bytes → Option (StarterPosition Vec)) (self_peer : Bytes) (now : ℕ)
      (arrived : List Bytes) (log : Map (Vec × ℕ)) (m : RemotePlayers Vec)
      → size arrived < 2 ^ 32
      → IsUnique m
      → All (IsLatest log) m
      → All
          (IsLatest (heard read self_peer now arrived log))
          (drain_position_events read self_peer now (handed arrived) m)
  drain_position_events-IsLatest read self_peer now arrived log m h u l =
      subst (All (IsLatest (heard read self_peer now arrived log)))
        (sym (drain_position_events-handed read self_peer now arrived m h))
        (drain_frames-IsLatest read self_peer now arrived log m u l)

  module _ {World : Type 0} (cells : Cells World Vec) where
    remove_stale-All :
        (P : Bytes × RemoteEntry Vec → Type 0) (peers : List Bytes) (m : RemotePlayers Vec)
        (w : World)
        → All P m
        → All P (remove_stale cells peers m w).0
    unfolding remove_stale
    remove_stale-All P [] m w v = v
    remove_stale-All P (peer ∷ peers) m w v = elim (Option-cases (take_entry peer m)) [
      | inl t ↦ rw (remove_stale, t) (remove_stale-All P peers m w v)
      | inr ((e, m'), t) ↦
          rw (remove_stale, t) (remove_stale-All P peers m' _ (take_entry-All P peer m v t))
    ]

    show_entry-pos : (e : RemoteEntry Vec) (w : World) → (show_entry cells e w).0.pos ≡ e.pos
    unfolding show_entry
    show_entry-pos e w = elim (Option-cases e.entity) [
      | inl n ↦ rw (show_entry, n) refl
      | inr (i, n) ↦ rw (show_entry, n) refl
    ]

    show_all-IsLatest :
        (log : Map (Vec × ℕ)) (m : RemotePlayers Vec) (w : World)
        → All (IsLatest log) m
        → All (IsLatest log) (show_all cells m w).0
    unfolding show_all
    show_all-IsLatest log [] w v = tt
    show_all-IsLatest log ((k, e) ∷ m) w (l, v) = (
      rw (show_entry-pos e w, show_entry-last_seen_ms cells e w) l,
      show_all-IsLatest log m (show_entry cells e w).1 v,
    )

    pub render_remote_players-IsLatest :
        (log : Map (Vec × ℕ)) (now : ℕ) (m : RemotePlayers Vec) (w : World)
        → All (IsLatest log) m
        → All (IsLatest log) (render_remote_players cells now m w).0
    unfolding render_remote_players
    render_remote_players-IsLatest log now m w v =
        let stale = stale_peers (now - stale_ms) m in
        let (m1, w1) = remove_stale cells stale m w in
        show_all-IsLatest log m1 w1 (remove_stale-All (IsLatest log) stale m w v)
