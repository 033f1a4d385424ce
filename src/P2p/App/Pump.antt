-- ===== src/P2p/App/Pump.antt =====
-- `drain_net_events` of crates/laye-p2p/src/wasm.rs: every event of the transport is routed to the
-- chat, the links, the mesh table, the pipe of errors or the host's queues. The last part of the
-- file draws and is left out.
pub mod Routing
pub mod Handed
use laye.Base.{
  ℕ, ◌∷◌, [], ◌++◌, List, Bytes, Bool, true, false, ◌&&◌, ◌||◌, Option, none, some, codes, is_empty,
  bytes_eq, if◌then◌else◌,
}
use laye.Base.Maps.{Map, lookup_or, insert, remove, contains, add, delete}
use laye.Net.{Net, NetEvent, peer_up, peer_down, message, subscription_change, error, poll_events}
use laye.Me.Keys.{Ed25519}
use laye.Me.Wire.{Json, ChatJson, BindingJson}
use laye.P2p.Errors.{Error, warn, emit_all}
use laye.P2p.Chat.{
  PlaintextChat, IncomingChat, signed, plaintext, ChatEntry, chat_topic, legacy_chat_topic, ingest,
  push, attribute_author, short_peer_display,
}
use laye.P2p.Identity.{identity_topic, parse_and_verify, absorb}
use laye.P2p.App.{AppState, failure, print_net_error, flush_pending_for}
use laye.Frames as Frames

-- What the loop over the events collects beside the state.
pub record Drained : Type 0 where
  pub state : AppState
  pub opaque : List NetEvent
  pub errors : List Error
  pub topics_to_flush : List Bytes

-- A peer that subscribes or leaves a topic; the flag says whether it joined.
unfoldable pub on_subscription : Bytes → Bytes → Bool → Drained → Drained
on_subscription topic peer joined d =
    let st = d.state in
    let entry = lookup_or [] topic st.topic_peers in
    if joined
    then (record d {
      state = record st { topic_peers = insert topic (add peer entry) st.topic_peers };
      topics_to_flush = if is_empty entry then add topic d.topics_to_flush else d.topics_to_flush;
    })
    else (let left = delete peer entry in
        let peers =
          if is_empty left then remove topic st.topic_peers else insert topic left st.topic_peers in
        record d { state = record st { topic_peers = peers } })

-- A peer that is gone leaves every topic; a topic that it empties is removed.
unfoldable pub drop_peer : Bytes → Map (List Bytes) → Map (List Bytes)
drop_peer peer [] = []
drop_peer peer ((topic, peers) ∷ m) =
    let rest = drop_peer peer m in
    let left = delete peer peers in
    if contains peer peers && is_empty left then rest else (topic, left) ∷ rest

abbrev pub keep : NetEvent → Drained → Drained
keep ev d = record d { opaque = d.opaque ++ ev ∷ [] }

-- `e` and the codecs come from third-party code, and so does `to_pubkey`: the Ed25519 key inside a
-- printed peer id. `own` is the public key of the key pair that the `Net` was made with.
module _ (e : Ed25519) (j : Json ChatJson) (jp : Json PlaintextChat) (jb : Json (List BindingJson))
    (to_pubkey : Bytes → Option Bytes) (own : Option Bytes) where
  unfoldable pub chat_entry : IncomingChat → AppState → ChatEntry
  chat_entry (signed c) st = record {
    who = attribute_author (some st.bindings) c.author_peer_pubkey;
    body = c.body;
  }
  chat_entry (plaintext c) st = record { who = short_peer_display c.peer; body = c.body }

  unfoldable pub on_chat : Bytes → Bytes → Drained → Drained
  unfolding chat_entry
  on_chat topic bytes d =
      let st = d.state in
      elim (ingest e j jp topic bytes own st.peer_id_hex) [
        | none ↦ d
        | some incoming ↦ record d {
          state = record st { chat = push (chat_entry incoming st) st.chat };
        }
      ]

  unfoldable pub on_identity : Bytes → Bytes → Drained → Drained
  on_identity publisher bytes d =
      let st = d.state in
      record d {
        state = record st {
          bindings = absorb st.bindings publisher (parse_and_verify jb e bytes publisher);
        };
      }

  -- A message of the identity topic whose sender has no key falls through to the host's queues.
  unfoldable pub on_message : Bytes → Bytes → Bytes → ℕ → Drained → Drained
  unfolding on_chat on_identity
  on_message topic from bytes at_ms d =
      if bytes_eq topic chat_topic || bytes_eq topic legacy_chat_topic
      then on_chat topic bytes d
      else if bytes_eq topic identity_topic
      then elim (to_pubkey from) [
        | none ↦ keep (message topic from bytes at_ms) d
        | some publisher ↦ on_identity publisher bytes d
      ]
      else keep (message topic from bytes at_ms) d

  unfoldable pub route_event : Bytes → NetEvent → Drained → Drained
  unfolding on_subscription drop_peer on_message
  route_event now (subscription_change topic peer joined) d = on_subscription topic peer joined d
  route_event now (peer_down peer reason) d =
      let st = d.state in
      keep (peer_down peer reason)
        (record d { state = record st { topic_peers = drop_peer peer st.topic_peers } })
  route_event now (message topic from bytes at_ms) d = on_message topic from bytes at_ms d
  route_event now (error x) d =
      let (err, st) =
        failure now warn (codes "net-event") (codes "libp2p transport surfaced an error")
          (print_net_error x) d.state in
      record d { state = st; errors = d.errors ++ err ∷ [] }
  route_event now (peer_up peer addrs) d = keep (peer_up peer addrs) d

  unfoldable pub route_all : Bytes → List NetEvent → Drained → Drained
  unfolding route_event
  route_all now [] d = d
  route_all now (ev ∷ evs) d = route_all now evs (route_event now ev d)

  unfoldable pub flush_all : Bytes → List Bytes → AppState → AppState
  flush_all now [] st = st
  flush_all now (topic ∷ topics) st = flush_all now topics (flush_pending_for now topic st)

  -- The events are routed under one borrow of the state; then the errors are emitted and the topics
  -- that have just got a mesh are flushed, in an order that the source leaves open.
  unfoldable pub settle : Bytes → Drained → AppState
  unfolding flush_all
  settle now d =
      let st = record d.state { rx = Frames.ingest d.opaque d.state.rx } in
      flush_all now d.topics_to_flush (record st { pipe = emit_all d.errors st.pipe })

  unfoldable pub take_events : AppState → List NetEvent × AppState
  take_events st = elim st.net [
    | none ↦ ([], st)
    | some n ↦ let (events, n') = poll_events n in (events, record st { net = some n' })
  ]

  unfoldable pub drain_net_events : Bytes → AppState → AppState
  unfolding take_events route_all settle
  drain_net_events now st =
      let (events, st') = take_events st in
      settle now (
        route_all now events
          (record { state = st'; opaque = []; errors = []; topics_to_flush = [] }))
