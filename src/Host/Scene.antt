-- ===== src/Host/Scene.antt =====
-- The other players of bevy-starter/src/scene.rs: `drain_position_events` and `render_remote_players`.
-- The entities of bevy are an interface; a vector is a type of the caller.
pub mod Tidy
pub mod Unique
pub mod Fresh
pub mod Heard
pub mod Shown
pub mod Frames
use laye.Base.{
  ℕ, ◌-◌, ◌==◌, ◌∷◌, [], ◌++◌, List, Bytes, Bool, true, false, Option, none, some, codes, ltb,
  bytes_eq, is_some, is_empty, if◌then◌else◌,
}
use laye.Base.Maps.{Map, lookup, insert}
use laye.Frames.{split_frames}

-- `pos` stands for the three fields x, y and z.
pub record StarterPosition (Vec : Type 0) : Type 0 where
  pub peer : Bytes
  pub pos : Vec
  pub at_ms : ℕ

pub record RemoteEntry (Vec : Type 0) : Type 0 where
  pub pos : Vec
  pub last_seen_ms : ℕ
  pub entity : Option ℕ

abbrev pub RemotePlayers : Type 0 → Type 0
RemotePlayers Vec = Map (RemoteEntry Vec)

-- The cells of the other players in bevy's world: where one stands, a new one, one less, and one that
-- is moved where it exists. The commands of a run are applied before the next run reads.
pub record Cells (World Vec : Type 0) : Type 0 where
  pub cell : ℕ → World → Option Vec
  pub spawn : Vec → World → ℕ × World
  pub despawn : ℕ → World → World
  pub move_to : ℕ → Vec → World → World

abbrev pub stale_ms : ℕ
stale_ms = 30000

module _ {Vec : Type 0} where
  -- `entry(peer).or_default()`, with the two fields that are written.
  unfoldable pub see_peer : Bytes → Vec → ℕ → RemotePlayers Vec → RemotePlayers Vec
  see_peer peer pos now remotes =
      let entity : Option ℕ = elim (lookup peer remotes) [ none ↦ none | some e ↦ e.entity ] in
      insert peer (record { pos = pos; last_seen_ms = now; entity = entity }) remotes

  unfoldable pub drain_frames :
      (Bytes → Option (StarterPosition Vec))
      → Bytes
      → ℕ
      → List Bytes
      → RemotePlayers Vec
      → RemotePlayers Vec
  unfolding see_peer
  drain_frames read self_peer now [] remotes = remotes
  drain_frames read self_peer now (frame ∷ frames) remotes = elim (read frame) [
    | none ↦ drain_frames read self_peer now frames remotes
    | some p ↦
        drain_frames read self_peer now frames
          (if bytes_eq p.peer self_peer then remotes else see_peer p.peer p.pos now remotes)
  ]

  -- `buf` is what `recv_bytes` gives; the test of `pending_bytes` spares the call where nothing waits.
  unfoldable pub drain_position_events :
      (Bytes → Option (StarterPosition Vec))
      → Bytes
      → ℕ
      → Bytes
      → RemotePlayers Vec
      → RemotePlayers Vec
  unfolding drain_frames
  drain_position_events read self_peer now buf remotes =
      if is_empty buf then remotes else drain_frames read self_peer now (split_frames buf) remotes

  unfoldable pub stale_peers : ℕ → RemotePlayers Vec → List Bytes
  stale_peers cutoff [] = []
  stale_peers cutoff ((peer, e) ∷ m) =
      let rest = stale_peers cutoff m in if ltb e.last_seen_ms cutoff then peer ∷ rest else rest

  -- `HashMap::remove`, which gives what was removed.
  unfoldable pub take_entry :
      Bytes → RemotePlayers Vec → Option (RemoteEntry Vec × RemotePlayers Vec)
  take_entry peer [] = none
  take_entry peer ((k, e) ∷ m) =
      let rest = take_entry peer m in
      if bytes_eq k peer
      then some (e, m)
      else elim rest [ none ↦ none | some (x, m') ↦ some (x, (k, e) ∷ m') ]

  module _ {World : Type 0} (cells : Cells World Vec) where
    unfoldable pub remove_stale : List Bytes → RemotePlayers Vec → World → RemotePlayers Vec × World
    unfolding take_entry
    remove_stale [] m w = (m, w)
    remove_stale (peer ∷ peers) m w = elim (take_entry peer m) [
      | none ↦ remove_stale peers m w
      | some (e, m') ↦
          remove_stale peers m' (elim e.entity [ none ↦ w | some i ↦ cells.despawn i w ])
    ]

    unfoldable pub show_entry : RemoteEntry Vec → World → RemoteEntry Vec × World
    show_entry e w = elim e.entity [
      | none ↦ let (i, w') = cells.spawn e.pos w in (record e { entity = some i }, w')
      | some i ↦ (e, cells.move_to i e.pos w)
    ]

    unfoldable pub show_all : RemotePlayers Vec → World → RemotePlayers Vec × World
    unfolding show_entry
    show_all [] w = ([], w)
    show_all ((peer, e) ∷ m) w =
        let (e', w1) = show_entry e w in let (m', w2) = show_all m w1 in ((peer, e') ∷ m', w2)

    unfoldable pub render_remote_players : ℕ → RemotePlayers Vec → World → RemotePlayers Vec × World
    unfolding stale_peers remove_stale show_all
    render_remote_players now remotes w =
        let (m, w') = remove_stale (stale_peers (now - stale_ms) remotes) remotes w in show_all m w'
