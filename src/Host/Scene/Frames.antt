-- ===== src/Host/Scene/Frames.antt =====
-- The frames of the page, the newest first, and what they show of the other players.
use laye.Base.{ℕ, ◌≡◌, ◌-◌, ◌<◌, ◌^◌, ◌∷◌, [], List, Bytes, Option, none, All, arith}
use laye.Host.Scene.{
  RemotePlayers, Cells, StarterPosition, drain_position_events, stale_ms, render_remote_players,
}
use laye.Base.Maps.{Map}
use laye.Frames.Framing.{size}
use laye.Host.Scene.Heard.{
  handed, heard, IsLatest, drain_position_events-IsLatest, render_remote_players-IsLatest,
}
use laye.Host.Scene.Tidy.{IsLawful, IsTidy, drain_position_events-IsTidy}
use laye.Host.Scene.Unique.{IsUnique, drain_position_events-IsUnique}
use laye.Host.Scene.Fresh.{IsSeen, render_remote_players-IsSeen}
use laye.Host.Scene.Shown.{IsDrawn, render_remote_players-IsTidy}

-- A frame of the page: what waits on the topic of the positions, who the page is, and what the clock says
-- to each of the two systems.
pub record Frame : Type 0 where
  pub arrived : List Bytes
  pub self_peer : Bytes
  pub drained_at : ℕ
  pub rendered_at : ℕ

-- A 32-bit length counts the buffer.
abbrev pub Fits : Frame → Type 0
Fits f = size f.arrived < 2 ^ 32

module _ {Vec : Type 0} (read : Bytes → Option (StarterPosition Vec)) where
  abbrev pub heard_of : List Frame → Map (Vec × ℕ)
  heard_of [] = []
  heard_of (f ∷ earlier) = heard read f.self_peer f.drained_at f.arrived (heard_of earlier)

module _ {World Vec : Type 0} (cells : Cells World Vec) where
  module _ (read : Bytes → Option (StarterPosition Vec)) where
    abbrev pub frame : Frame → RemotePlayers Vec × World → RemotePlayers Vec × World
    frame f (m, w) =
        render_remote_players cells f.rendered_at
          (drain_position_events read f.self_peer f.drained_at (handed f.arrived) m) w

    abbrev pub frames : List Frame → World → RemotePlayers Vec × World
    frames [] w = ([], w)
    frames (f ∷ earlier) w = frame f (frames earlier w)

    frames-IsTidy :
        (fs : List Frame) (w : World)
        → IsLawful cells
        → ((k : ℕ) → cells.cell k w ≡ none)
        → IsTidy cells (frames fs w).0 (frames fs w).1
    frames-IsTidy [] w laws h = λ k. ground (arith, h k)
    frames-IsTidy (f ∷ fs) w laws h =
        let (m, w1) = frames fs w in
        let buf = handed f.arrived in
        (render_remote_players-IsTidy cells f.rendered_at
          (drain_position_events read f.self_peer f.drained_at buf m) w1 laws
          (drain_position_events-IsTidy cells read f.self_peer f.drained_at buf m w1
            (frames-IsTidy fs w laws h))).0

    frames-IsUnique : (fs : List Frame) (w : World) → IsUnique (frames fs w).0
    frames-IsUnique [] w = tt
    frames-IsUnique (f ∷ fs) w =
        let (m, w1) = frames fs w in
        let buf = handed f.arrived in
        (render_remote_players-IsSeen cells f.rendered_at
          (drain_position_events read f.self_peer f.drained_at buf m) w1
          (drain_position_events-IsUnique read f.self_peer f.drained_at buf m
            (frames-IsUnique fs w))).0

    frames-IsLatest :
        (fs : List Frame) (w : World)
        → All Fits fs
        → All (IsLatest (heard_of read fs)) (frames fs w).0
    frames-IsLatest [] w fits = tt
    frames-IsLatest (f ∷ fs) w (fit, fits) =
        let (m, w1) = frames fs w in
        render_remote_players-IsLatest cells (heard_of read (f ∷ fs)) f.rendered_at
          (drain_position_events read f.self_peer f.drained_at (handed f.arrived) m) w1
          (drain_position_events-IsLatest read f.self_peer f.drained_at f.arrived (heard_of read fs)
            m fit (frames-IsUnique fs w) (frames-IsLatest fs w fits))

    -- Where bevy keeps its promises on entities, from a world without cells on, however many frames bring
    -- whatever payloads of less than 2^32 framed bytes each time, at whatever times: after a frame, every
    -- other player that is known has a cell, which stands where its entry says, every cell belongs to one
    -- player, no two share one, each player that is known was seen in the 30 seconds before the frame was
    -- rendered, and its entry holds the position and the time of what was read last of it, a page's own
    -- positions left out.
    pub frames-IsDrawn :
        (f : Frame) (earlier : List Frame) (w : World)
        → IsLawful cells
        → ((k : ℕ) → cells.cell k w ≡ none)
        → All Fits (f ∷ earlier)
        → All (IsDrawn cells (frames (f ∷ earlier) w).1) (frames (f ∷ earlier) w).0
          × (IsTidy cells (frames (f ∷ earlier) w).0 (frames (f ∷ earlier) w).1
              × (All (IsSeen (f.rendered_at - stale_ms)) (frames (f ∷ earlier) w).0
                  × All (IsLatest (heard_of read (f ∷ earlier))) (frames (f ∷ earlier) w).0))
    frames-IsDrawn f earlier w laws h fits =
        let (m, w1) = frames earlier w in
        let buf = handed f.arrived in
        let drained = drain_position_events read f.self_peer f.drained_at buf m in
        let both = render_remote_players-IsTidy cells f.rendered_at drained w1 laws (
          drain_position_events-IsTidy cells read f.self_peer f.drained_at buf m w1
            (frames-IsTidy earlier w laws h)) in
        let seen = render_remote_players-IsSeen cells f.rendered_at drained w1 (
          drain_position_events-IsUnique read f.self_peer f.drained_at buf m
            (frames-IsUnique earlier w)) in
        (both.1, (both.0, (seen.1, frames-IsLatest (f ∷ earlier) w fits)))
