-- ===== src/Gateway/Client/Delivery.antt =====
-- What a connection leaves behind.
use laye.Base.{
  ◌≡◌, List, Option, Bool, Bool-cases, none, some, true, false, Bytes, arith, length-set, set,
  length, refl, Option-cases, inl, inr,
}
use laye.Gateway.Sink.{BroadcastSink, poll_next}
use laye.Gateway.Registry.{TopicRegistry, upgrade, broadcast, drop_sink}
use laye.Gateway.Registry.Fanout.{IsValid, upgrade-set-none}
use laye.Gateway.Registry.Invariant.{broadcast-IsValid, drop_sink-IsValid}
use laye.Gateway.Client.{
  Client, Shared, Event, received, stream_error, stream_end, write_round, binary, close, other,
  finish, on_binary, send_polled, write_frame, step, handle,
}

set-IsValid :
    (r : TopicRegistry) (h : List (Option BroadcastSink))
    → length h ≡ length r.heap
    → IsValid r
    → IsValid (record r { heap = h })
set-IsValid r h e v = record {
  distinct = v.distinct;
  one_topic = v.one_topic;
  made = λ k i p. omega (arith, v.made k i p);
}

finish-IsValid : (c : Client) (sh : Shared) → IsValid sh.registry → IsValid (finish c sh).1.registry
unfolding finish
finish-IsValid c sh v = drop_sink-IsValid c.sink sh.registry v

send_polled-IsValid :
    (sent : Bool) (c : Client) (sh : Shared) (o : Option (Bytes × BroadcastSink))
    → IsValid sh.registry
    → IsValid (send_polled sent c sh o).1.registry
unfolding send_polled
send_polled-IsValid sent c sh none v = v
send_polled-IsValid true c sh (some (b, s)) v =
    set-IsValid sh.registry _ (length-set sh.registry.heap c.sink (some s)) v
send_polled-IsValid false c sh (some (b, s)) v =
    drop_sink-IsValid c.sink _
      (set-IsValid sh.registry _ (length-set sh.registry.heap c.sink (some s)) v)

write_frame-IsValid :
    (sent : Bool) (c : Client) (sh : Shared)
    → IsValid sh.registry
    → IsValid (write_frame sent c sh).1.registry
unfolding write_frame
write_frame-IsValid sent c sh v = elim (Option-cases (upgrade sh.registry.heap c.sink)) [
  | inl e ↦ rw (e, write_frame) v
  | inr (s, e) ↦ rw (e, write_frame) (send_polled-IsValid sent c sh (poll_next s) v)
]

handle-IsValid :
    (e : Event) (c : Client) (sh : Shared)
    → IsValid sh.registry
    → IsValid (handle e c sh).1.registry
unfolding handle
handle-IsValid (received (binary bytes)) c sh v = elim (Bool-cases sh.receiver_alive) [
  | inl a ↦ rw (a, on_binary) (broadcast-IsValid c.topic bytes sh.registry v)
  | inr a ↦
      rw (a, on_binary)
        (finish-IsValid c (record sh { registry = broadcast c.topic bytes sh.registry })
          (broadcast-IsValid c.topic bytes sh.registry v))
]
handle-IsValid (received close) c sh v = finish-IsValid c sh v
handle-IsValid (received other) c sh v = v
handle-IsValid stream_error c sh v = finish-IsValid c sh v
handle-IsValid stream_end c sh v = finish-IsValid c sh v
handle-IsValid (write_round sent) c sh v = write_frame-IsValid sent c sh v

-- Every event of a connection keeps the shared registry well formed.
step-IsValid :
    (e : Event) (c : Client) (sh : Shared) → IsValid sh.registry → IsValid (step e c sh).1.registry
unfolding step
step-IsValid e c sh v = elim (Bool-cases c.running) [
  | inl r ↦ simp r (handle-IsValid e c sh v)
  | inr r ↦ simp r v
]

step_running :
    (e : Event) (c : Client) (sh : Shared) → c.running ≡ true → step e c sh ≡ handle e c sh
unfolding step
step_running e c sh r = simp r

step_stopped :
    (e : Event) (out : Client × Shared) → out.0.running ≡ false → step e out.0 out.1 ≡ out
unfolding step
step_stopped e out r = simp r

-- What is known of a connection that has just been ended.
abbrev Ended : Client → Shared → Client × Shared → Type 0
Ended c sh out =
    (out.0.sink ≡ c.sink) × ((out.0.running ≡ false) → upgrade out.1.registry.heap c.sink ≡ none)

finish-Ended : (c : Client) (sh : Shared) → Ended c sh (finish c sh)
unfolding finish drop_sink
finish-Ended c sh = (refl, λ e. upgrade-set-none sh.registry.heap c.sink)

send_polled-Ended :
    (sent : Bool) (c : Client) (sh : Shared) (o : Option (Bytes × BroadcastSink))
    → c.running ≡ true
    → Ended c sh (send_polled sent c sh o)
unfolding send_polled
send_polled-Ended sent c sh none r = (refl, λ e. cc)
send_polled-Ended true c sh (some (b, s)) r = (refl, λ e. cc)
send_polled-Ended false c sh (some (b, s)) r =
    let r' = record sh.registry { heap = set sh.registry.heap c.sink (some s) } in
    finish-Ended c (record sh { registry = r' })

write_frame-Ended :
    (sent : Bool) (c : Client) (sh : Shared) → c.running ≡ true → Ended c sh (write_frame sent c sh)
unfolding write_frame
write_frame-Ended sent c sh r = elim (Option-cases (upgrade sh.registry.heap c.sink)) [
  | inl e ↦ rw (e, write_frame) (refl, λ q. cc)
  | inr (s, e) ↦ rw (e, write_frame) (send_polled-Ended sent c sh (poll_next s) r)
]

handle-Ended :
    (e : Event) (c : Client) (sh : Shared) → c.running ≡ true → Ended c sh (handle e c sh)
unfolding handle finish drop_sink
handle-Ended (received (binary bytes)) c sh r =
    ground (arith, upgrade-set-none (broadcast c.topic bytes sh.registry).heap c.sink)
handle-Ended (received close) c sh r = finish-Ended c sh
handle-Ended (received other) c sh r = (refl, λ e. cc)
handle-Ended stream_error c sh r = finish-Ended c sh
handle-Ended stream_end c sh r = finish-Ended c sh
handle-Ended (write_round sent) c sh r = write_frame-Ended sent c sh r

-- A connection that an event ends has freed its sink, and no later event changes anything.
step_ends :
    (e later : Event) (c : Client) (sh : Shared)
    → c.running ≡ true
    → (step e c sh).0.running ≡ false
    → (upgrade (step e c sh).1.registry.heap c.sink ≡ none)
      × (step later (step e c sh).0 (step e c sh).1 ≡ step e c sh)
step_ends e later c sh r q =
    let ran = step_running e c sh r in
    (rw ran ((handle-Ended e c sh r).1 (rw ran at q)), step_stopped later (step e c sh) q)
