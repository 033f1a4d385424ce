-- ===== src/Gateway/Client.antt =====
-- `handle_client`: the two loops of one WebSocket connection, as a step for each thing that happens
-- to it. `tokio::select!` ends both loops when one ends.
pub mod Delivery
pub mod Relayed
use laye.Base.{
  ℕ, ◌∷◌, [], ◌++◌, List, Option, none, some, true, false, Bool, Bytes, set, if◌then◌else◌,
}
use laye.Gateway.Sink.{BroadcastSink, poll_next}
use laye.Gateway.Registry.{TopicRegistry, upgrade, subscribe, broadcast, drop_sink}

abbrev pub sink_capacity : ℕ
sink_capacity = 128

pub data GatewayCmd : Type 0 where
  publish : Bytes → Bytes → GatewayCmd

-- A WebSocket message: `other` is text, ping or pong.
pub data Message : Type 0 where
  binary : Bytes → Message
  close other : Message

pub data Event : Type 0 where
  -- `ws_stream.next()` gives a message, an error, or the end of the stream.
  received : Message → Event
  stream_error stream_end : Event
  -- A round of the write loop; the flag says whether `ws_sink.send` succeeds.
  write_round : Bool → Event

-- What a connection shares with the process: the registry, and the channel to the swarm's loop.
pub record Shared : Type 0 where
  pub registry : TopicRegistry
  pub cmds : List GatewayCmd
  pub receiver_alive : Bool

pub record Client : Type 0 where
  pub topic : Bytes
  pub sink : ℕ
  pub running : Bool
  -- The frames that were written to the socket.
  pub written : List Bytes

-- After the handshake: register the sink.
unfoldable pub connect : Bytes → Shared → Client × Shared
connect topic sh =
    let (sink, r) = subscribe topic sink_capacity sh.registry in
    (
      record { topic = topic; sink = sink; running = true; written = [] },
      record sh { registry = r },
    )

-- `handle_client` returns, and its `Arc` of the sink goes.
unfoldable pub finish : Client → Shared → Client × Shared
finish c sh = (record c { running = false }, record sh { registry = drop_sink c.sink sh.registry })

-- A frame goes to the subscribers on this node, then to the mesh.
unfoldable pub on_binary : Bytes → Client → Shared → Client × Shared
unfolding finish
on_binary bytes c sh =
    let sh' = record sh { registry = broadcast c.topic bytes sh.registry } in
    if sh.receiver_alive
    then (c, record sh' { cmds = sh.cmds ++ publish c.topic bytes ∷ [] })
    else finish c sh'

-- What a round of the write loop does with the result of its `next`: a frame is taken from the
-- outbox, and lost where the socket refuses it.
unfoldable pub send_polled :
    Bool → Client → Shared → Option (Bytes × BroadcastSink) → Client × Shared
unfolding finish
send_polled sent c sh none = (c, sh)
send_polled sent c sh (some (bytes, s)) =
    let r = record sh.registry { heap = set sh.registry.heap c.sink (some s) } in
    let sh' = record sh { registry = r } in
    if sent then (record c { written = c.written ++ bytes ∷ [] }, sh') else finish c sh'

unfoldable pub write_frame : Bool → Client → Shared → Client × Shared
unfolding send_polled
write_frame sent c sh = elim (upgrade sh.registry.heap c.sink) [
  | none ↦ (c, sh)
  | some s ↦ send_polled sent c sh (poll_next s)
]

unfoldable pub handle : Event → Client → Shared → Client × Shared
unfolding on_binary write_frame finish
handle (received (binary bytes)) c sh = on_binary bytes c sh
handle (received close) c sh = finish c sh
handle (received other) c sh = (c, sh)
handle stream_error c sh = finish c sh
handle stream_end c sh = finish c sh
handle (write_round sent) c sh = write_frame sent c sh

unfoldable pub step : Event → Client → Shared → Client × Shared
unfolding handle
step e c sh = if c.running then handle e c sh else (c, sh)
