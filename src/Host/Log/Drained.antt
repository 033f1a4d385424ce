-- ===== src/Host/Log/Drained.antt =====
-- The log is the newest of all that was ever noted, hooked or logged.
use laye.Base.{
  ◌≡◌, ◌∙◌, refl, sym, ap, ◌≤◌, ◌∷◌, [], ◌++◌, List, Bytes, true, false, Option, none, some, codes,
  map, length, ltb, get_or_else, if◌then◌else◌, append_assoc, append-nil, arith, Bool-cases,
  Option-cases, bytes_eq, bytes_eq_iff, starts_with, inl, inr,
}
use laye.Base.Recent.{keep_last, length-keep_last-le, keep_last-append, keep_last_all}
use laye.Host.Log.{
  error_log_cap, Severity, error, ErrorEntry, emit, Event, EventVisitor, visit, should_drop_target,
  Queues, panic_hook, captured_severity, on_event, emit_panics, emit_logs,
}

abbrev pub panic_entry : Bytes → ErrorEntry
panic_entry msg = record { severity = error; message = codes "PANIC: " ++ msg }

abbrev pub log_entry : Severity × Bytes → ErrorEntry
log_entry (severity, msg) = record { severity = severity; message = msg }

-- The last field of the name.
abbrev pub last_named : Bytes → List (Bytes × Bytes) → Option Bytes
last_named name [] = none
last_named name ((k, value) ∷ fields) = elim (last_named name fields) [
  | some later ↦ some later
  | none ↦ if bytes_eq k name then some value else none
]

-- What an event comes to in the log: an error or a warning whose target, which a `log.target` overrides,
-- is not one of the noisy ones.
abbrev pub noted : Event → List (Severity × Bytes)
noted event = elim (captured_severity event.level) [
  | none ↦ []
  | some severity ↦
      let target = get_or_else (last_named (codes "log.target") event.fields) event.target in
      if starts_with (codes "wgpu_hal::gles") target
      then []
      else (
        severity,
        target ++ (codes ": " ++ get_or_else (last_named (codes "message") event.fields) []),
      )
        ∷ []
]

pub data Happening : Type 0 where
  panicked : Bytes → Happening
  logged : Event → Happening

abbrev pub happen : List Happening → Queues → Queues
happen [] q = q
happen (panicked msg ∷ hs) q = happen hs (panic_hook msg q)
happen (logged event ∷ hs) q = happen hs (on_event event q)

abbrev pub panics_of : List Happening → List Bytes
panics_of [] = []
panics_of (panicked msg ∷ hs) = msg ∷ panics_of hs
panics_of (logged event ∷ hs) = panics_of hs

abbrev pub logs_of : List Happening → List (Severity × Bytes)
logs_of [] = []
logs_of (panicked msg ∷ hs) = logs_of hs
logs_of (logged event ∷ hs) = noted event ++ logs_of hs

-- A field has one of the two names.
codes_differ :
    (k : Bytes) → bytes_eq k (codes "log.target") ≡ true → bytes_eq k (codes "message") ≡ false
unfolding bytes_eq
codes_differ k h = rw ((bytes_eq_iff k (codes "log.target")).0 h) refl

visit-message :
    (fields : List (Bytes × Bytes)) (v : EventVisitor)
    → (visit fields v).message ≡ get_or_else (last_named (codes "message") fields) v.message
unfolding visit
visit-message [] v = refl
visit-message ((k, value) ∷ fields) v = visit-message fields _ ∙ ground (arith, codes_differ k)

visit-log_target :
    (fields : List (Bytes × Bytes)) (v : EventVisitor) (d : Bytes)
    → get_or_else (visit fields v).log_target d
      ≡ get_or_else (last_named (codes "log.target") fields) (get_or_else v.log_target d)
unfolding visit
visit-log_target [] v d = refl
visit-log_target ((k, value) ∷ fields) v d =
    visit-log_target fields _ d ∙ ground (arith, codes_differ k)

on_event-noted :
    (event : Event) (q : Queues) → on_event event q ≡ record q { logs = q.logs ++ noted event }
unfolding on_event should_drop_target
on_event-noted event q = elim (Option-cases (captured_severity event.level)) [
  | inl e ↦ rw (on_event, noted, e, append-nil) refl
  | inr (s, e) ↦
      let v : EventVisitor = record { message = []; log_target = none } in
      let target = get_or_else (last_named (codes "log.target") event.fields) event.target in
      elim (Bool-cases (starts_with (codes "wgpu_hal::gles") target)) [
        | inl d ↦
            rw
              (
                on_event,
                noted,
                e,
                visit-message event.fields v,
                visit-log_target event.fields v event.target,
                d,
                append-nil,
              )
              refl
        | inr d ↦
            rw
              (
                on_event,
                noted,
                e,
                visit-message event.fields v,
                visit-log_target event.fields v event.target,
                d,
              )
              refl
      ]
]

emit-keep_last :
    (severity : Severity) (msg : Bytes) (log : List ErrorEntry)
    → emit severity msg log
      ≡ keep_last error_log_cap (log ++ record { severity = severity; message = msg } ∷ [])
unfolding emit
emit-keep_last severity msg log =
    let grown = log ++ record { severity = severity; message = msg } ∷ [] in
    elim (Bool-cases (ltb error_log_cap (length grown))) [
      | inl e ↦ rw e refl
      | inr e ↦ rw e (sym (keep_last_all error_log_cap grown (ground (arith, e))))
    ]

pub emit_logs-keep_last :
    (rest : List (Severity × Bytes)) (log : List ErrorEntry)
    → length log ≤ error_log_cap
    → emit_logs rest log ≡ keep_last error_log_cap (log ++ map log_entry rest)
unfolding emit_logs
emit_logs-keep_last [] log h = rw append-nil (sym (keep_last_all error_log_cap log h))
emit_logs-keep_last ((severity, msg) ∷ rest) log h =
    let entry = log_entry (severity, msg) in
    rw (emit-keep_last severity msg log) (
      emit_logs-keep_last rest (keep_last error_log_cap (log ++ entry ∷ []))
        (length-keep_last-le error_log_cap (log ++ entry ∷ []))
      ∙ (keep_last-append error_log_cap (log ++ entry ∷ []) (map log_entry rest)
          ∙ ap (keep_last error_log_cap) (append_assoc log (entry ∷ []) (map log_entry rest))))

abbrev panic_logs : List Bytes → List (Severity × Bytes)
panic_logs [] = []
panic_logs (msg ∷ msgs) = (error, codes "PANIC: " ++ msg) ∷ panic_logs msgs

emit_panics-emit_logs :
    (msgs : List Bytes) (log : List ErrorEntry)
    → emit_panics msgs log ≡ emit_logs (panic_logs msgs) log
unfolding emit_panics emit_logs
emit_panics-emit_logs [] log = refl
emit_panics-emit_logs (msg ∷ msgs) log =
    emit_panics-emit_logs msgs (emit error (codes "PANIC: " ++ msg) log)

map-panic_logs : (msgs : List Bytes) → map log_entry (panic_logs msgs) ≡ map panic_entry msgs
map-panic_logs [] = refl
map-panic_logs (msg ∷ msgs) = ap (λ es. panic_entry msg ∷ es) (map-panic_logs msgs)

pub emit_panics-keep_last :
    (msgs : List Bytes) (log : List ErrorEntry)
    → length log ≤ error_log_cap
    → emit_panics msgs log ≡ keep_last error_log_cap (log ++ map panic_entry msgs)
emit_panics-keep_last msgs log h =
    emit_panics-emit_logs msgs log
    ∙ (emit_logs-keep_last (panic_logs msgs) log h
        ∙ ap (λ es. keep_last error_log_cap (log ++ es)) (map-panic_logs msgs))

pub happen-queues :
    (hs : List Happening) (q : Queues)
    → happen hs q ≡ record { panics = q.panics ++ panics_of hs; logs = q.logs ++ logs_of hs }
unfolding panic_hook
happen-queues [] q = rw (append-nil, append-nil) refl
happen-queues (panicked msg ∷ hs) q = happen-queues hs (panic_hook msg q) ∙ rw append_assoc refl
happen-queues (logged event ∷ hs) q =
    ap (happen hs) (on_event-noted event q)
    ∙ (happen-queues hs (record q { logs = q.logs ++ noted event }) ∙ rw append_assoc refl)
