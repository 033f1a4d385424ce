-- ===== src/Net/Swarm.antt =====
-- crates/net/src/swarm.rs: what the loop of the swarm does with a command and with an event of the
-- swarm. The swarm of `libp2p` is not part of the repository: its three operations are parameters.
pub mod Calls
pub mod Rounds
use laye.Base.{
  ℕ, suc, ◌∷◌, [], ◌++◌, List, Bytes, Bool, true, false, Option, none, some, codes, Result, ok, err,
  get_or_else, is_empty, leb, if◌then◌else◌,
}
use laye.Net.{
  NetError, NetEvent, Cmd, Net, publish_cmd, subscribe_cmd, unsubscribe_cmd, error, peer_up,
  peer_down, message, subscription_change, publish_failed, subscribe_failed, not_connected,
  provider_internal,
}

-- `Behaviour::publish`, `subscribe` and `unsubscribe` of gossipsub, `Multiaddr::from_str` and
-- `Swarm::dial`, on a state of the swarm; an error is its printed text.
pub record Transport : Type 1 where
  pub Swarm : Type 0
  pub publish : Bytes → Bytes → Swarm → Result Bytes (Unit {0}) × Swarm
  pub subscribe : Bytes → Swarm → Result Bytes (Unit {0}) × Swarm
  pub unsubscribe : Bytes → Swarm → Result Bytes (Unit {0}) × Swarm
  pub parse_multiaddr : Bytes → Result Bytes Bytes
  pub dial : Bytes → Swarm → Result Bytes (Unit {0}) × Swarm

-- One link of an error's chain: an `io::Error` with the name of its kind, or another error with its
-- printed text.
pub data Link : Type 0 where
  io_error printed : Bytes → Link

-- The walk stops after eight links, and says so.
unfoldable pub walk_chain : ℕ → List Link → List Bytes
walk_chain depth [] = []
walk_chain depth (l ∷ ls) =
    let rest = walk_chain (suc depth) ls in
    if leb 8 depth then (226 ∷ 128 ∷ 166 ∷ codes "(chain truncated)") ∷ [] else elim l [
      | io_error k ↦ (codes "io::" ++ k) ∷ rest
      | printed s ↦ if is_empty s then rest else s ∷ rest
    ]

unfoldable pub join : Bytes → List Bytes → Bytes
join sep [] = []
join sep (x ∷ []) = x
join sep (x ∷ y ∷ ys) = x ++ (sep ++ join sep (y ∷ ys))

unfoldable pub decode_error_chain : List Link → Bytes
unfolding walk_chain
decode_error_chain chain =
    let parts = walk_chain 0 chain in
    -- The separator is ` ← `, whose arrow is three bytes.
    if is_empty parts then codes "(no detail)" else join (32 ∷ 226 ∷ 134 ∷ 144 ∷ 32 ∷ []) parts

-- The events of the swarm that the loop reads; `other` is every other one.
pub data SwarmEvent : Type 0 where
  connection_established : Bytes → SwarmEvent
  connection_closed : Bytes → Option (List Link) → SwarmEvent
  outgoing_connection_error : Option Bytes → List Link → SwarmEvent
  incoming_connection_error : List Link → SwarmEvent
  -- The neighbour that passed the message on, its signed source, its topic and its data.
  gossip_message : Bytes → Option Bytes → Bytes → Bytes → SwarmEvent
  subscribed unsubscribed : Bytes → Bytes → SwarmEvent
  other : SwarmEvent

abbrev pub push_event : NetEvent → Net → Net
push_event e n = record n { events = n.events ++ e ∷ [] }

-- The time that `now_ms` reads is an argument.
unfoldable pub handle_swarm_event : ℕ → SwarmEvent → Net → Net
unfolding decode_error_chain
handle_swarm_event now (connection_established peer) n = push_event (peer_up peer []) n
handle_swarm_event now (connection_closed peer none) n =
    push_event (peer_down peer (codes "graceful close (no cause reported)")) n
handle_swarm_event now (connection_closed peer (some cause)) n =
    push_event (peer_down peer (decode_error_chain cause)) n
handle_swarm_event now (outgoing_connection_error peer e) n =
    let reason =
      codes "outgoing dial to "
      ++ (get_or_else peer (codes "<unknown>") ++ (codes ": " ++ decode_error_chain e)) in
    push_event (error (not_connected reason)) n
handle_swarm_event now (incoming_connection_error e) n =
    push_event (error (not_connected (codes "incoming connection error: " ++ decode_error_chain e)))
      n
handle_swarm_event now (gossip_message via source topic data_) n =
    push_event (message topic (get_or_else source via) data_ now) n
handle_swarm_event now (subscribed peer topic) n =
    push_event (subscription_change topic peer true) n
handle_swarm_event now (unsubscribed peer topic) n =
    push_event (subscription_change topic peer false) n
handle_swarm_event now other n = n

-- An error of the swarm becomes an event.
abbrev pub report : (Bytes → NetError) → Result Bytes (Unit {0}) → Net → Net
report e (ok u) n = n
report e (err reason) n = push_event (error (e reason)) n

module _ (t : Transport) where
  unfoldable pub handle_cmd : Cmd → t.Swarm → Net → t.Swarm × Net
  handle_cmd (publish_cmd topic bytes) s n =
      let (r, s') = t.publish topic bytes s in (s', report (publish_failed topic) r n)
  handle_cmd (subscribe_cmd topic) s n =
      let (r, s') = t.subscribe topic s in (s', report (subscribe_failed topic) r n)
  handle_cmd (unsubscribe_cmd topic) s n = let (r, s') = t.unsubscribe topic s in (s', n)

  -- What happens before the loop: the topics of the configuration, then the bootstrap addresses.
  unfoldable pub subscribe_initial : List Bytes → t.Swarm → Net → t.Swarm × Net
  unfolding handle_cmd
  subscribe_initial [] s n = (s, n)
  subscribe_initial (topic ∷ topics) s n =
      let (s', n') = handle_cmd (subscribe_cmd topic) s n in subscribe_initial topics s' n'

  unfoldable pub dial_bootstrap : List Bytes → t.Swarm → Net → t.Swarm × Net
  dial_bootstrap [] s n = (s, n)
  dial_bootstrap (a ∷ addrs) s n = elim (t.parse_multiaddr a) [
    | ok addr ↦
        let (r, s') = t.dial addr s in
        let why = λ (e : Bytes). not_connected (codes "dial " ++ (a ++ (codes ": " ++ e))) in
        dial_bootstrap addrs s' (report why r n)
    | err e ↦
        let why = provider_internal (codes "parse multiaddr " ++ (a ++ (codes ": " ++ e))) in
        dial_bootstrap addrs s (push_event (error why) n)
  ]

  -- One turn of the loop, by the commands that are queued. `select_biased!` looks at them first: where
  -- none is and every sender is gone, the loop ends; only then is an event of the swarm taken. `happens`
  -- is the event that is ready, with the time: one that is not taken stays ready.
  unfoldable pub take_turn :
      List Cmd → Bool → Option (ℕ × SwarmEvent) → t.Swarm → Net → Option (t.Swarm × Net)
  unfolding handle_cmd handle_swarm_event
  take_turn (c ∷ cs) closed happens s n = some (handle_cmd c s (record n { cmds = cs }))
  take_turn [] true happens s n = none
  take_turn [] false none s n = some (s, n)
  take_turn [] false (some (now, event)) s n = some (s, handle_swarm_event now event n)

  -- The loop of `drive_swarm`, over what each turn finds.
  unfoldable pub drive : List (Bool × Option (ℕ × SwarmEvent)) → t.Swarm → Net → t.Swarm × Net
  unfolding take_turn
  drive [] s n = (s, n)
  drive ((closed, happens) ∷ turns) s n = elim (take_turn n.cmds closed happens s n) [
    | none ↦ (s, n)
    | some next ↦ drive turns next.0 next.1
  ]
