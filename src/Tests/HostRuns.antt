-- ===== src/Tests/HostRuns.antt =====
-- The theorems on the game around the page at concrete inputs.
use laye.Base.{
  ◌≡◌, ◌↔◌, ℕ, suc, ◌==◌, ◌∷◌, [], ◌++◌, List, Bytes, Bool, true, false, Option, none, some, codes,
  arith, map, All, if◌then◌else◌, ltb, ◌-◌,
}
use laye.Base.Recent.{keep_last}
use laye.Host.Input.{is_captured, chat_focus, KeyCode}
use laye.Host.Input.Held.{Step, claimed, released, frame, run, holds, is_captured-run}
use laye.Host.Log.{error_log_cap, note, ErrorEntry, level_warn, level_error, Event}
use laye.Host.Log.Drained.{
  Happening, panicked, logged, happen, panics_of, logs_of, panic_entry, log_entry,
}
use laye.Host.Drawer.{DrawerView, line, refresh_view}
use laye.Host.Drawer.Shown.{drain_both, in_order, refresh_view-happen}
use laye.Host.Scene.{Cells, StarterPosition, stale_ms}
use laye.Frames.Framing.{size}
use laye.Host.Scene.Heard.{IsLatest}
use laye.Host.Scene.Fresh.{IsSeen}
use laye.Host.Scene.Tidy.{IsLawful, IsTidy}
use laye.Host.Scene.Shown.{IsDrawn}
use laye.Host.Scene.Frames.{Frame, Fits, frames, heard_of, frames-IsDrawn}

abbrev no_keys : KeyCode → Bool
no_keys k = false

abbrev steps : List Step
steps =
    frame no_keys (chat_focus ∷ [])
    ∷ released (codes "chat")
    ∷ claimed (codes "wardrobe")
    ∷ claimed (codes "chat")
    ∷ []

is_captured-run_example :
    (is_captured (run steps) ≡ true) ↔ ((who : Bytes) × (holds who steps ≡ true))
is_captured-run_example = is_captured-run steps

abbrev event : Event
event = record {
  level = level_warn;
  target = codes "rave";
  fields = (codes "message", codes "slow") ∷ [];
}

abbrev noisy : Event
noisy = record {
  level = level_error;
  target = codes "log";
  fields =
      (codes "log.target", codes "wgpu_hal::gles::device") ∷ (codes "message", codes "view") ∷ [];
}

abbrev happenings : List Happening
happenings = logged event ∷ logged noisy ∷ panicked (codes "gone") ∷ []

abbrev booted : List ErrorEntry
booted = record { severity = note; message = codes "bevy-starter booted" } ∷ []

abbrev closed : DrawerView
closed = record { lines = []; is_open = false }

refresh_view-happen_example :
    (refresh_view
      (drain_both false (happen happenings (record { panics = []; logs = [] })) booted)
      closed).lines
    ≡ map line (
        keep_last error_log_cap (
          booted
          ++ in_order false
              (map panic_entry (panics_of happenings))
              (map log_entry (logs_of happenings))))
refresh_view-happen_example = refresh_view-happen false happenings booted closed (omega arith)

-- A world of cells: the entity to come, and where those that live stand.
abbrev World : Type 0
World = ℕ × (ℕ → Option ℕ)

abbrev cells : Cells World ℕ
cells = record {
  cell = λ i w. if ltb i w.0 then w.1 i else none;
  spawn = λ v w. (w.0, (suc w.0, λ i. if w.0 == i then some v else w.1 i));
  despawn = λ j w. (w.0, λ i. if j == i then none else w.1 i);
  move_to =
      λ j v w. (w.0, λ i. if j == i then elim (w.1 i) [ none ↦ none | some u ↦ some v ] else w.1 i);
}

cells-IsLawful : IsLawful cells
cells-IsLawful = record {
  spawn-fresh = λ v w. ground arith;
  cell-spawn = λ i v w. ground arith;
  cell-despawn = λ i j w. ground arith;
  cell-move_to = λ i j v w. ground arith;
}

-- A position that comes in as a peer's one letter and a number.
abbrev read : Bytes → Option (StarterPosition ℕ)
read [] = none
read (peer ∷ []) = none
read (peer ∷ pos ∷ rest) = some (record { peer = peer ∷ []; pos = pos; at_ms = 0 })

abbrev here : Frame
here = record {
  arrived = (7 ∷ 3 ∷ []) ∷ (1 ∷ 9 ∷ []) ∷ (7 ∷ 4 ∷ []) ∷ [];
  self_peer = 1 ∷ [];
  drained_at = 40000;
  rendered_at = 40001;
}

abbrev earlier : List Frame
earlier =
    record {
      arrived = (8 ∷ 5 ∷ []) ∷ (7 ∷ 2 ∷ []) ∷ [];
      self_peer = 1 ∷ [];
      drained_at = 1000;
      rendered_at = 1000;
    }
    ∷ []

abbrev empty_world : World
empty_world = (0, λ i. none)

no_cells : (k : ℕ) → cells.cell k empty_world ≡ none
no_cells k = ground arith

all_fit : All Fits (here ∷ earlier)
unfolding size
all_fit = (omega arith, (omega arith, tt))

frames-IsDrawn_example :
    All
      (IsDrawn cells (frames cells read (here ∷ earlier) empty_world).1)
      (frames cells read (here ∷ earlier) empty_world).0
    × (IsTidy cells
          (frames cells read (here ∷ earlier) empty_world).0
          (frames cells read (here ∷ earlier) empty_world).1
        × (All
              (IsSeen (here.rendered_at - stale_ms))
              (frames cells read (here ∷ earlier) empty_world).0
            × All
                (IsLatest (heard_of read (here ∷ earlier)))
                (frames cells read (here ∷ earlier) empty_world).0))
frames-IsDrawn_example =
    frames-IsDrawn cells read here earlier empty_world cells-IsLawful no_cells all_fit
