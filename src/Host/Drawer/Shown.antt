-- ===== src/Host/Drawer/Shown.antt =====
-- What the drawer shows of the log. bevy leaves the order of the systems that drain open.
use laye.Base.{Bool, true, false, ◌≡◌, ◌∙◌, ap, ◌≤◌, [], ◌++◌, List, map, length, append_assoc}
use laye.Base.Recent.{keep_last, length-keep_last-le, keep_last-append}
use laye.Host.Log.{
  error_log_cap, ErrorEntry, Queues, drain_panics, drain_logs, emit_panics, emit_logs,
}
use laye.Host.Log.Drained.{
  Happening, happen, panics_of, logs_of, panic_entry, log_entry, happen-queues, emit_logs-keep_last,
  emit_panics-keep_last,
}
use laye.Host.Drawer.{DrawerView, line, refresh_view}

-- The two systems that drain, in the order that bevy takes: it may be either.
abbrev pub drain_both : Bool → Queues → List ErrorEntry → List ErrorEntry
drain_both true q log = let (q1, log1) = drain_panics q log in (drain_logs q1 log1).1
drain_both false q log = let (q1, log1) = drain_logs q log in (drain_panics q1 log1).1

-- What comes in of two kinds, the kind that is drained first before the other.
abbrev pub in_order : Bool → List ErrorEntry → List ErrorEntry → List ErrorEntry
in_order true panics logs = panics ++ logs
in_order false panics logs = logs ++ panics

drained :
    (q : Queues) (log : List ErrorEntry)
    → length log ≤ error_log_cap
    → emit_logs q.logs (emit_panics q.panics log)
      ≡ keep_last error_log_cap (log ++ (map panic_entry q.panics ++ map log_entry q.logs))
drained q log h =
    let panicked = log ++ map panic_entry q.panics in
    rw (emit_panics-keep_last q.panics log h) (
      emit_logs-keep_last q.logs (keep_last error_log_cap panicked)
        (length-keep_last-le error_log_cap panicked)
      ∙ (keep_last-append error_log_cap panicked (map log_entry q.logs)
          ∙ ap (keep_last error_log_cap)
              (append_assoc log (map panic_entry q.panics) (map log_entry q.logs))))

drained_logs_first :
    (q : Queues) (log : List ErrorEntry)
    → length log ≤ error_log_cap
    → emit_panics q.panics (emit_logs q.logs log)
      ≡ keep_last error_log_cap (log ++ (map log_entry q.logs ++ map panic_entry q.panics))
drained_logs_first q log h =
    let logged = log ++ map log_entry q.logs in
    rw (emit_logs-keep_last q.logs log h) (
      emit_panics-keep_last q.panics (keep_last error_log_cap logged)
        (length-keep_last-le error_log_cap logged)
      ∙ (keep_last-append error_log_cap logged (map panic_entry q.panics)
          ∙ ap (keep_last error_log_cap)
              (append_assoc log (map log_entry q.logs) (map panic_entry q.panics))))

-- Whatever panicked or was logged since the two queues were last empty, and whichever of the two is
-- drained first: a drawer that is refreshed once both have been drained into a log of 200 entries at most
-- shows a line for each of the newest 200 of the entries that the log had, followed by the panics and by
-- the errors and warnings of targets that are not noisy, in the order of the draining, each kind in the
-- order in which it came.
pub refresh_view-happen :
    (panics_first : Bool) (hs : List Happening) (log : List ErrorEntry) (view : DrawerView)
    → length log ≤ error_log_cap
    → (refresh_view
        (drain_both panics_first (happen hs (record { panics = []; logs = [] })) log)
        view).lines
      ≡ map line (
          keep_last error_log_cap (
            log
            ++ in_order panics_first (map panic_entry (panics_of hs)) (map log_entry (logs_of hs))))
unfolding refresh_view drain_panics drain_logs
refresh_view-happen true hs log view h =
    rw (happen-queues hs (record { panics = []; logs = [] }))
      (ap (map line) (drained (record { panics = panics_of hs; logs = logs_of hs }) log h))
refresh_view-happen false hs log view h =
    rw (happen-queues hs (record { panics = []; logs = [] })) (
      ap (map line)
        (drained_logs_first (record { panics = panics_of hs; logs = logs_of hs }) log h))
