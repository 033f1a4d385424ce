-- ===== src/Net/Swarm/Calls.antt =====
-- What the loop of the swarm asks of the transport, and what it tells of the events.
use laye.Base.{
  ℕ, suc, ◌≡◌, ◌∙◌, ◌≤◌, refl, ap, sym, ◌+◌, ◌∷◌, [], ◌++◌, append-nil, List, Bytes, Bool, true,
  Option, false, none, some, length, leb, codes, arith, Result, ok, err, Bool-cases, inl, inr,
}
use laye.Net.{
  NetEvent, Cmd, Net, publish_cmd, subscribe_cmd, unsubscribe_cmd, publish_failed, subscribe_failed,
  not_connected, error, peer_up, peer_down, message, subscription_change,
}
use laye.Net.Swarm.{
  Transport, SwarmEvent, Link, io_error, printed, walk_chain, decode_error_chain,
  handle_swarm_event, report, connection_established, connection_closed, outgoing_connection_error,
  incoming_connection_error, gossip_message, subscribed, unsubscribed, other,
}

-- However long the chain of an error is, what is printed of it has at most nine parts: eight links, and
-- the note that the rest is cut.
walk_chain_bounded :
    (depth : ℕ) (chain : List Link) → depth ≤ 8 → length (walk_chain depth chain) + depth ≤ 9
unfolding walk_chain
walk_chain_bounded depth [] h = omega (arith, h)
walk_chain_bounded depth (l ∷ ls) h = elim (Bool-cases (leb 8 depth)) [
  | inl deep ↦ ground (arith, deep, h)
  | inr shallow ↦
      let rest = walk_chain_bounded (suc depth) ls (ground (arith, shallow)) in links l shallow rest
]
  where
    links :
        (m : Link)
        → leb 8 depth ≡ false
        → length (walk_chain (suc depth) ls) + suc depth ≤ 9
        → length (walk_chain depth (m ∷ ls)) + depth ≤ 9
    links (io_error k) shallow rest = ground (arith, shallow, rest)
    links (printed s) shallow rest = ground (arith, shallow, rest)

-- A command that was handed to the transport, with what the transport answered.
abbrev pub Call : Type 0
Call = Cmd × Result Bytes (Unit {0})

-- The transport, with a record of its calls.
abbrev pub recording : Transport → Transport
recording t = record {
  Swarm = t.Swarm × List Call;
  publish = λ topic bytes (s, calls).
      let (r, s') = t.publish topic bytes s in
      (r, (s', calls ++ (publish_cmd topic bytes, r) ∷ []));
  subscribe = λ topic (s, calls).
      let (r, s') = t.subscribe topic s in (r, (s', calls ++ (subscribe_cmd topic, r) ∷ []));
  unsubscribe = λ topic (s, calls).
      let (r, s') = t.unsubscribe topic s in (r, (s', calls ++ (unsubscribe_cmd topic, r) ∷ []));
  parse_multiaddr = t.parse_multiaddr;
  dial = λ a (s, calls). let (r, s') = t.dial a s in (r, (s', calls));
}

-- The errors that calls bring: the transport's refusals to publish and to subscribe.
abbrev pub errors_of : List Call → List NetEvent
errors_of [] = []
errors_of ((publish_cmd topic bytes, err why) ∷ calls) =
    error (publish_failed topic why) ∷ errors_of calls
errors_of ((subscribe_cmd topic, err why) ∷ calls) =
    error (subscribe_failed topic why) ∷ errors_of calls
errors_of (call ∷ calls) = errors_of calls

-- What is to be told of an event of the swarm: who came and went and why, whom a message is from (its
-- signed source, and only without one the neighbour that passed it on), and who reads a topic.
abbrev pub announced : ℕ → SwarmEvent → List NetEvent
announced now (connection_established peer) = peer_up peer [] ∷ []
announced now (connection_closed peer none) =
    peer_down peer (codes "graceful close (no cause reported)") ∷ []
announced now (connection_closed peer (some cause)) = peer_down peer (decode_error_chain cause) ∷ []
announced now (outgoing_connection_error none e) =
    error (not_connected (codes "outgoing dial to <unknown>: " ++ decode_error_chain e)) ∷ []
announced now (outgoing_connection_error (some peer) e) =
    error
      (not_connected (codes "outgoing dial to " ++ (peer ++ (codes ": " ++ decode_error_chain e))))
    ∷ []
announced now (incoming_connection_error e) =
    error (not_connected (codes "incoming connection error: " ++ decode_error_chain e)) ∷ []
announced now (gossip_message via none topic data_) = message topic via data_ now ∷ []
announced now (gossip_message via (some source) topic data_) = message topic source data_ now ∷ []
announced now (subscribed peer topic) = subscription_change topic peer true ∷ []
announced now (unsubscribed peer topic) = subscription_change topic peer false ∷ []
announced now other = []

-- The turns that take events, up to the one that finds every sender gone.
abbrev pub told : List (Bool × Option (ℕ × SwarmEvent)) → List NetEvent
told [] = []
told ((true, happens) ∷ turns) = []
told ((false, none) ∷ turns) = told turns
told ((false, some (now, event)) ∷ turns) = announced now event ++ told turns

-- Handling an event tells exactly what is to be told of it, and leaves the commands alone.
pub handle_swarm_event-announced :
    (now : ℕ) (event : SwarmEvent) (n : Net)
    → handle_swarm_event now event n ≡ record n { events = n.events ++ announced now event }
unfolding handle_swarm_event
handle_swarm_event-announced now (connection_established peer) n = refl
handle_swarm_event-announced now (connection_closed peer none) n = refl
handle_swarm_event-announced now (connection_closed peer (some cause)) n = refl
handle_swarm_event-announced now (outgoing_connection_error none e) n = refl
handle_swarm_event-announced now (outgoing_connection_error (some peer) e) n = refl
handle_swarm_event-announced now (incoming_connection_error e) n = refl
handle_swarm_event-announced now (gossip_message via none topic data_) n = refl
handle_swarm_event-announced now (gossip_message via (some source) topic data_) n = refl
handle_swarm_event-announced now (subscribed peer topic) n = refl
handle_swarm_event-announced now (unsubscribed peer topic) n = refl
handle_swarm_event-announced now other n =
    ap (λ es. record n { events = es }) (sym (append-nil n.events))

pub report-publish_cmd :
    (topic bytes : Bytes) (r : Result Bytes (Unit {0})) (n : Net)
    → report (publish_failed topic) r n
      ≡ record n { events = n.events ++ errors_of ((publish_cmd topic bytes, r) ∷ []) }
report-publish_cmd topic bytes (ok u) n =
    ap (λ es. record n { events = es }) (sym (append-nil n.events))
report-publish_cmd topic bytes (err why) n = refl

pub report-subscribe_cmd :
    (topic : Bytes) (r : Result Bytes (Unit {0})) (n : Net)
    → report (subscribe_failed topic) r n
      ≡ record n { events = n.events ++ errors_of ((subscribe_cmd topic, r) ∷ []) }
report-subscribe_cmd topic (ok u) n =
    ap (λ es. record n { events = es }) (sym (append-nil n.events))
report-subscribe_cmd topic (err why) n = refl

pub nothing_reported :
    (c : Cmd) (r : Result Bytes (Unit {0})) (n : Net)
    → errors_of ((c, r) ∷ []) ≡ []
    → n ≡ record n { events = n.events ++ errors_of ((c, r) ∷ []) }
nothing_reported c r n h =
    ap (λ es. record n { events = es }) (sym (ap (λ es. n.events ++ es) h ∙ append-nil n.events))

pub errors_of-append : (xs ys : List Call) → errors_of (xs ++ ys) ≡ errors_of xs ++ errors_of ys
errors_of-append [] ys = refl
errors_of-append ((publish_cmd topic bytes, ok u) ∷ xs) ys = errors_of-append xs ys
errors_of-append ((publish_cmd topic bytes, err why) ∷ xs) ys =
    ap (λ es. error (publish_failed topic why) ∷ es) (errors_of-append xs ys)
errors_of-append ((subscribe_cmd topic, ok u) ∷ xs) ys = errors_of-append xs ys
errors_of-append ((subscribe_cmd topic, err why) ∷ xs) ys =
    ap (λ es. error (subscribe_failed topic why) ∷ es) (errors_of-append xs ys)
errors_of-append ((unsubscribe_cmd topic, r) ∷ xs) ys = errors_of-append xs ys
