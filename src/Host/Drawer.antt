-- ===== src/Host/Drawer.antt =====
-- crates/bevy-drawer/src/lib.rs: the drawer shows the log's lines, and opens and closes by an intent.
pub mod Shown
use laye.Base.{
  ◌∷◌, [], ◌++◌, List, Bytes, Bool, true, false, not, codes, map, is_empty, if◌then◌else◌, bytes_eq,
}
use laye.Host.Input.{
  Intent, chat_focus, drawer_toggle, screenshot, inventory_toggle, release_all_claims,
}
use laye.Host.Log.{Severity, note, warn, error, ErrorEntry}

pub record DrawerView : Type 0 where
  pub lines : List Bytes
  pub is_open : Bool

unfoldable pub severity_tag : Severity → Bytes
severity_tag note = codes "note"
severity_tag warn = codes "warn"
severity_tag error = codes "error"

abbrev pub line : ErrorEntry → Bytes
line e = b'[' ∷ (severity_tag e.severity ++ (codes "] " ++ e.message))

unfoldable pub refresh_view : List ErrorEntry → DrawerView → DrawerView
unfolding severity_tag
refresh_view log view = record view { lines = map line log }

unfoldable pub toggle_on_intent : List Intent → DrawerView → DrawerView
toggle_on_intent [] view = view
toggle_on_intent (drawer_toggle ∷ is) view =
    toggle_on_intent is (record view { is_open = not view.is_open })
toggle_on_intent (chat_focus ∷ is) view = toggle_on_intent is view
toggle_on_intent (screenshot ∷ is) view = toggle_on_intent is view
toggle_on_intent (inventory_toggle ∷ is) view = toggle_on_intent is view
toggle_on_intent (release_all_claims ∷ is) view = toggle_on_intent is view

pub data Visibility : Type 0 where
  inherited : Visibility
  hidden : Visibility

-- What the overlay's nodes are set to.
unfoldable pub sync_visibility : DrawerView → Visibility
sync_visibility view = if view.is_open then inherited else hidden

abbrev pub join_lines : List Bytes → Bytes
join_lines [] = []
join_lines (x ∷ []) = x
join_lines (x ∷ y ∷ ys) = x ++ 10 ∷ join_lines (y ∷ ys)

-- `is_changed` is bevy's mark that the view was written to since the last run.
unfoldable pub sync_text : Bool → DrawerView → Bytes → Bytes
sync_text is_changed view text =
    if not is_changed
    then text
    else if is_empty view.lines
    then codes "(no entries)"
    else join_lines view.lines
