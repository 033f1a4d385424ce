-- ===== src/Host/Log.antt =====
-- crates/bevy-observability/src/lib.rs: the log of errors, the queues that the panic hook and the log
-- layer fill, and the systems that drain them.
pub mod Drained
use laye.Base.{
  ℕ, ◌-◌, ◌∷◌, [], ◌++◌, List, Bytes, Bool, true, false, Option, none, some, codes, bytes_eq,
  starts_with, length, drop, ltb, get_or_else, if◌then◌else◌,
}

abbrev pub error_log_cap : ℕ
error_log_cap = 200

pub data Severity : Type 0 where
  note : Severity
  warn : Severity
  error : Severity

pub record ErrorEntry : Type 0 where
  pub severity : Severity
  pub message : Bytes

-- `ErrorLog::emit`: the log grows, and then gives up what is beyond the cap.
unfoldable pub emit : Severity → Bytes → List ErrorEntry → List ErrorEntry
emit severity message log =
    let grown = log ++ record { severity = severity; message = message } ∷ [] in
    if ltb error_log_cap (length grown) then drop (length grown - error_log_cap) grown else grown

pub data Level : Type 0 where
  level_error : Level
  level_warn : Level
  level_info : Level
  level_debug : Level
  level_trace : Level

-- An event of `tracing`: its fields in order, each with its value as it prints.
pub record Event : Type 0 where
  pub level : Level
  pub target : Bytes
  pub fields : List (Bytes × Bytes)

pub record EventVisitor : Type 0 where
  pub message : Bytes
  pub log_target : Option Bytes

unfoldable pub visit : List (Bytes × Bytes) → EventVisitor → EventVisitor
visit [] v = v
visit ((name, value) ∷ fields) v = visit fields (
    if bytes_eq name (codes "message")
    then record v { message = value }
    else if bytes_eq name (codes "log.target")
    then record v { log_target = some value }
    else v)

abbrev pub dropped_log_targets : List Bytes
dropped_log_targets = codes "wgpu_hal::gles" ∷ []

abbrev pub any_prefix : List Bytes → Bytes → Bool
any_prefix [] t = false
any_prefix (p ∷ ps) t = if starts_with p t then true else any_prefix ps t

unfoldable pub should_drop_target : Bytes → Bool
should_drop_target target = any_prefix dropped_log_targets target

-- The two queues of the process.
pub record Queues : Type 0 where
  pub panics : List Bytes
  pub logs : List (Severity × Bytes)

-- The hook's first half; the hook that was there before runs after it.
unfoldable pub panic_hook : Bytes → Queues → Queues
panic_hook formatted q = record q { panics = q.panics ++ formatted ∷ [] }

unfoldable pub captured_severity : Level → Option Severity
captured_severity level_error = some error
captured_severity level_warn = some warn
captured_severity level_info = none
captured_severity level_debug = none
captured_severity level_trace = none

unfoldable pub on_event : Event → Queues → Queues
unfolding captured_severity visit should_drop_target
on_event event q = elim (captured_severity event.level) [
  | none ↦ q
  | some severity ↦
      let v = visit event.fields (record { message = []; log_target = none }) in
      let effective_target = get_or_else v.log_target event.target in
      if should_drop_target effective_target then q else record q {
        logs = q.logs ++ (severity, effective_target ++ (codes ": " ++ v.message)) ∷ [];
      }
]

unfoldable pub emit_panics : List Bytes → List ErrorEntry → List ErrorEntry
unfolding emit
emit_panics [] log = log
emit_panics (msg ∷ msgs) log = emit_panics msgs (emit error (codes "PANIC: " ++ msg) log)

unfoldable pub emit_logs : List (Severity × Bytes) → List ErrorEntry → List ErrorEntry
unfolding emit
emit_logs [] log = log
emit_logs ((severity, msg) ∷ rest) log = emit_logs rest (emit severity msg log)

unfoldable pub drain_panics : Queues → List ErrorEntry → Queues × List ErrorEntry
unfolding emit_panics
drain_panics q log = (record q { panics = [] }, emit_panics q.panics log)

unfoldable pub drain_logs : Queues → List ErrorEntry → Queues × List ErrorEntry
unfolding emit_logs
drain_logs q log = (record q { logs = [] }, emit_logs q.logs log)
