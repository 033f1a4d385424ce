-- ===== src/P2p/App.antt =====
-- crates/laye-p2p/src/wasm.rs, less the page: the thread's `STATE`, what the host of the page calls,
-- and the pump that routes the events of the transport. What only draws (`render_chat`,
-- `update_login_button`) is left out.
pub mod Sends
pub mod Pump
pub mod Login
pub mod PublishChat
pub mod Boot
pub mod Overlay
pub mod SignIn
use laye.Base.{
  ℕ, ◌∷◌, [], ◌++◌, List, Bytes, Bool, true, false, not, ◌&&◌, ◌||◌, Option, none, some, codes,
  length, tail, leb, is_empty, bytes_eq, if◌then◌else◌, Result, ok, err,
}
use laye.Base.Maps.{Map, lookup, lookup_or, insert, remove, add, delete}
use laye.Net.{
  Net, NetError, publish_failed, subscribe_failed, not_connected, invalid_topic, provider_internal,
  publish, subscribe,
}
use laye.Me.Claims.{SignedBinding}
use laye.P2p.Errors.{Severity, warn, severe, Error, Pipe, build, emit}
use laye.P2p.Chat.{ChatState, BindingTable, chat_topic, legacy_chat_topic}
use laye.P2p.Identity.{identity_topic}
use laye.Frames.{RxState}

abbrev pub pending_sends_cap : ℕ
pending_sends_cap = 8

abbrev pub surface : Bytes
surface = codes "laye-p2p"

-- `AppState` without its handles on the page, and the pipe of errors, which is thread-local too.
pub record AppState : Type 0 where
  pub net : Option Net
  pub rx : RxState
  pub peer_id_hex : Bytes
  pub self_pubkey : Option Bytes
  pub chat : ChatState
  pub bindings : BindingTable
  pub self_bindings : List SignedBinding
  pub topic_peers : Map (List Bytes)
  pub pending_sends : Map (List Bytes)
  pub pipe : Pipe

unfoldable pub has_mesh_for : Bytes → AppState → Bool
has_mesh_for topic st = elim (lookup topic st.topic_peers) [
  | none ↦ false
  | some peers ↦ not (is_empty peers)
]

unfoldable pub enqueue_send : Bytes → Bytes → AppState → AppState
enqueue_send topic bytes st =
    let queue = lookup_or [] topic st.pending_sends in
    let kept = if leb pending_sends_cap (length queue) then tail queue else queue in
    record st { pending_sends = insert topic (kept ++ bytes ∷ []) st.pending_sends }

unfoldable pub is_internal_topic : Bytes → Bool
is_internal_topic topic =
    bytes_eq topic chat_topic || bytes_eq topic legacy_chat_topic || bytes_eq topic identity_topic

-- The printed `NetError`; `reason` is the one text that the model keeps of it.
abbrev pub print_net_error : NetError → Bytes
print_net_error (publish_failed t r) = codes "publish failed on topic " ++ (t ++ (codes ": " ++ r))
print_net_error (subscribe_failed t r) =
    codes "subscribe failed on topic " ++ (t ++ (codes ": " ++ r))
print_net_error (not_connected r) = codes "not connected: " ++ r
print_net_error (invalid_topic t r) = codes "invalid topic " ++ (t ++ (codes ": " ++ r))
print_net_error (provider_internal r) = codes "provider internal: " ++ r

-- The time, as `now_ms` prints it, is the first argument of what builds an error.
unfoldable pub failure : Bytes → Severity → Bytes → Bytes → Bytes → AppState → Error × AppState
failure now severity region title why st =
    let (e, p) = build now severity surface region title why st.pipe in (e, record st { pipe = p })

unfoldable pub report : Bytes → Severity → Bytes → Bytes → Bytes → AppState → AppState
unfolding failure
report now severity region title why st =
    let (e, st') = failure now severity region title why st in record st' { pipe = emit e st'.pipe }

-- `net.as_ref().map(|net| net.publish(topic, bytes))`.
unfoldable pub publish_net :
    Bytes → Bytes → AppState → Option (Result NetError (Unit {0})) × AppState
publish_net topic bytes st = elim st.net [
  | none ↦ (none, st)
  | some n ↦ let (r, n') = publish topic bytes n in (some r, record st { net = some n' })
]

abbrev pub Outcome : Type 0
Outcome = Result Error (Unit {0}) × AppState

abbrev pub fail : Bytes → Severity → Bytes → Bytes → Bytes → AppState → Outcome
fail now severity region title why st =
    let (e, st') = failure now severity region title why st in (err e, st')

unfoldable pub publish_meshed : Bytes → Bytes → Bytes → AppState → Outcome
unfolding publish_net
publish_meshed now topic bytes st =
    let (r, st') = publish_net topic bytes st in
    elim r [
      | none ↦
          fail now severe (codes "publish-preinit") (codes "publish called before init")
            (codes "STATE.net is None") st'
      | some (ok u) ↦ (ok tt, st')
      | some (err e) ↦
          fail now warn (codes "publish-cmd") (codes "publish cmd send failed") (print_net_error e)
            st'
    ]

unfoldable pub publish_inner : Bytes → Bytes → Bytes → AppState → Outcome
unfolding publish_meshed enqueue_send
publish_inner now topic bytes st =
    if is_internal_topic topic
    then fail now severe (codes "publish-internal-topic")
        (codes "host attempted publish on an internal topic")
        (topic ++ codes " is owned by laye-p2p") st
    else if not (has_mesh_for topic st)
    then (ok tt, enqueue_send topic bytes st)
    else publish_meshed now topic bytes st

unfoldable pub subscribe_opaque_inner : Bytes → Bytes → AppState → Outcome
subscribe_opaque_inner now topic st =
    if is_internal_topic topic
    then fail now severe (codes "subscribe-internal-topic")
        (codes "host attempted subscribe_opaque on an internal topic")
        (topic ++ codes " is subscribed internally") st
    else elim st.net [
      | none ↦
          fail now severe (codes "subscribe-preinit") (codes "subscribe called before init")
            (codes "STATE.net is None") st
      | some n ↦
          let (r, n') = subscribe topic n in
          let st' = record st { net = some n' } in
          elim r [
            | ok u ↦ (ok tt, st')
            | err e ↦
                fail now warn (codes "subscribe-cmd") (codes "subscribe cmd send failed")
                  (print_net_error e) st'
          ]
    ]

-- The shims that the host calls: an error goes into the pipe.
abbrev pub emit_err : Outcome → AppState
emit_err (ok u, st) = st
emit_err (err e, st) = record st { pipe = emit e st.pipe }

unfoldable pub publish_opaque : Bytes → Bytes → Bytes → AppState → AppState
unfolding publish_inner
publish_opaque now topic bytes st = emit_err (publish_inner now topic bytes st)

unfoldable pub subscribe_opaque : Bytes → Bytes → AppState → AppState
unfolding subscribe_opaque_inner
subscribe_opaque now topic st = emit_err (subscribe_opaque_inner now topic st)

-- One queued frame of `flush_pending_for`; a frame that can not be sent is lost, with an error.
unfoldable pub flush_one : Bytes → Bytes → Bytes → AppState → AppState
unfolding publish_net report
flush_one now topic bytes st =
    let (r, st') = publish_net topic bytes st in
    elim r [
      | none ↦
          report now severe (codes "publish-flush-preinit")
            (codes "post-mesh flush ran before net init") (codes "topic=" ++ topic) st'
      | some (ok u) ↦ st'
      | some (err e) ↦
          report now warn (codes "publish-flush-cmd") (codes "post-mesh flush publish failed")
            (codes "topic=" ++ (topic ++ (codes " err=" ++ print_net_error e))) st'
    ]

unfoldable pub flush_queue : Bytes → Bytes → List Bytes → AppState → AppState
unfolding flush_one
flush_queue now topic [] st = st
flush_queue now topic (b ∷ bs) st = flush_queue now topic bs (flush_one now topic b st)

-- `q.drain(..)` leaves an empty queue under the topic.
unfoldable pub flush_pending_for : Bytes → Bytes → AppState → AppState
unfolding flush_queue
flush_pending_for now topic st = elim (lookup topic st.pending_sends) [
  | none ↦ st
  | some q ↦
      flush_queue now topic q (record st { pending_sends = insert topic [] st.pending_sends })
]
