-- ===== src/P2p/App/Overlay.antt =====
-- `render_errors` and `bump_error_counter` of crates/laye-p2p/src/wasm.rs: the errors that wait are
-- shown, one node for all that recur. What a node looks like inside is left out.
pub mod Tidy
pub mod Coalesced
use laye.Base.{
  ℕ, ◌+◌, ◌∷◌, [], ◌++◌, List, Bytes, Bool, true, false, not, ◌||◌, Option, none, some, codes,
  get_or_else, is_empty, bytes_eq, if◌then◌else◌,
}
use laye.Base.Maps.{Map, lookup, lookup_or, insert}
use laye.P2p.Errors.{Error, Pipe, drain}

-- A node of the overlay: its `display` and the text of its counter; hidden while it says ×1.
pub record Node : Type 0 where
  pub error : Error
  pub displayed : Bool
  pub counter : ℕ
  pub counter_visible : Bool

-- The overlay's part of `AppState`: `mounted` says whether `error_list_el` is there.
pub record Overlay : Type 0 where
  pub mounted : Bool
  pub nodes : List Node
  pub error_dedup : Map Bytes
  pub error_counts : Map ℕ

abbrev pub empty_overlay : Overlay
empty_overlay = record { mounted = true; nodes = []; error_dedup = []; error_counts = [] }

-- `surface|region|title`.
unfoldable pub dedup_key : Error → Bytes
dedup_key x = x.context.surface ++ b'|' ∷ (get_or_else x.context.region [] ++ b'|' ∷ x.title)

-- `get_element_by_id`, and what is written to the element.
unfoldable pub show_count : Bytes → ℕ → List Node → List Node
show_count id n [] = []
show_count id n (x ∷ xs) =
    let rest = show_count id n xs in
    if bytes_eq x.error.id id
    then record x { displayed = true; counter = n; counter_visible = true } ∷ xs
    else x ∷ rest

unfoldable pub bump_error_counter : Bytes → Overlay → Overlay
unfolding show_count
bump_error_counter id o =
    let n = lookup_or 1 id o.error_counts + 1 in
    record o { error_counts = insert id n o.error_counts; nodes = show_count id n o.nodes }

abbrev pub fresh_node : Error → Node
fresh_node x = record { error = x; displayed = true; counter = 1; counter_visible = false }

unfoldable pub append_error : Bytes → Error → Overlay → Overlay
append_error key x o = record o {
  nodes = o.nodes ++ fresh_node x ∷ [];
  error_dedup = insert key x.id o.error_dedup;
  error_counts = insert x.id 1 o.error_counts;
}

-- `create` says whether the browser makes the elements of an error's node.
unfoldable pub render_next : (Error → Bool) → Error → Overlay → Overlay
unfolding bump_error_counter append_error
render_next create x o = elim (lookup (dedup_key x) o.error_dedup) [
  | some id ↦ bump_error_counter id o
  | none ↦ if create x then append_error (dedup_key x) x o else o
]

unfoldable pub render_all : (Error → Bool) → List Error → Overlay → Overlay
unfolding render_next
render_all create [] o = o
render_all create (x ∷ xs) o = render_all create xs (render_next create x o)

-- The errors are drained before it is known whether they can be shown; `document` says whether there is
-- a document.
unfoldable pub render_errors : Bool → (Error → Bool) → Overlay → Pipe → Overlay × Pipe
unfolding render_all
render_errors document create o p =
    let (errors, p') = drain p in
    (if is_empty errors || not document || not o.mounted then o else render_all create errors o, p')

unfoldable pub dismiss : Bytes → List Node → List Node
dismiss id [] = []
dismiss id (x ∷ xs) =
    let rest = dismiss id xs in
    if bytes_eq x.error.id id then record x { displayed = false } ∷ xs else x ∷ rest

unfoldable pub dismiss_error : Bytes → Overlay → Overlay
unfolding dismiss
dismiss_error id o = record o { nodes = dismiss id o.nodes }
