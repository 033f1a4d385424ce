-- ===== src/P2p/App/Pump/Routing.antt =====
-- What the routing of events keeps.
use laye.Base.{
  ℕ, ◌≡◌, ◌∙◌, refl, sym, ap, subst, ◌∷◌, [], List, Bytes, Bool, true, false, ◌||◌, Option,
  bytes_eq, arith, Option-cases, Bool-cases, inl, inr,
}
use laye.Base.Maps.{lookup, insert}
use laye.Frames.{RxState}
use laye.Me.Claims.{SignedBinding}
use laye.Net.{NetEvent, peer_up, peer_down, message, subscription_change, error, publish, send_cmd}
use laye.Me.Keys.{Ed25519}
use laye.Me.Wire.{Json, ChatJson, BindingJson}
use laye.P2p.Chat.{PlaintextChat, chat_topic, legacy_chat_topic, ingest}
use laye.P2p.Identity.{identity_topic, parse_and_verify}
use laye.P2p.Identity.Trust.{IsTrusted, absorb-IsTrusted, parse_and_verify_sound}
use laye.P2p.App.{AppState, report, failure, flush_pending_for, flush_queue, flush_one, publish_net}
use laye.P2p.App.Pump.{
  Drained, on_subscription, on_chat, on_identity, on_message, route_event, route_all, flush_all,
  settle, take_events, drain_net_events,
}

-- What flushing leaves alone: the table of links and the host's queues.
abbrev pub kept : AppState → List (Bytes × List SignedBinding) × RxState
kept st = (st.bindings, st.rx)

flush_one-kept : (now topic b : Bytes) (st : AppState) → kept (flush_one now topic b st) ≡ kept st
unfolding flush_one publish_net publish send_cmd report failure
flush_one-kept now topic b st = elim (Option-cases st.net) [
  | inl h ↦ ground (arith, h)
  | inr (n, h) ↦ ground (arith, h)
]

flush_queue-kept :
    (now topic : Bytes) (q : List Bytes) (st : AppState)
    → kept (flush_queue now topic q st) ≡ kept st
unfolding flush_queue
flush_queue-kept now topic [] st = refl
flush_queue-kept now topic (b ∷ q) st =
    flush_queue-kept now topic q (flush_one now topic b st) ∙ flush_one-kept now topic b st

flush_pending_for-kept :
    (now topic : Bytes) (st : AppState) → kept (flush_pending_for now topic st) ≡ kept st
unfolding flush_pending_for
flush_pending_for-kept now topic st = elim (Option-cases (lookup topic st.pending_sends)) [
  | inl h ↦ rw (flush_pending_for, h) refl
  | inr (q, h) ↦
      rw (flush_pending_for, h)
        (flush_queue-kept now topic q
          (record st { pending_sends = insert topic [] st.pending_sends }))
]

on_subscription-bindings :
    (topic peer : Bytes) (joined : Bool) (d : Drained)
    → (on_subscription topic peer joined d).state.bindings ≡ d.state.bindings
unfolding on_subscription
on_subscription-bindings topic peer true d = refl
on_subscription-bindings topic peer false d = refl

module _ (e : Ed25519) (j : Json ChatJson) (jp : Json PlaintextChat) (jb : Json (List BindingJson))
    (to_pubkey : Bytes → Option Bytes) (own : Option Bytes) where
  on_chat-bindings :
      (topic bytes : Bytes) (d : Drained)
      → (on_chat e j jp jb to_pubkey own topic bytes d).state.bindings ≡ d.state.bindings
  unfolding on_chat
  on_chat-bindings topic bytes d =
      elim (Option-cases (ingest e j jp topic bytes own d.state.peer_id_hex)) [
        | inl h ↦ rw (on_chat, h) refl
        | inr (c, h) ↦ rw (on_chat, h) refl
      ]

  on_message-IsTrusted :
      (topic from bytes : Bytes) (at_ms : ℕ) (d : Drained)
      → IsTrusted e d.state.bindings
      → IsTrusted e (on_message e j jp jb to_pubkey own topic from bytes at_ms d).state.bindings
  unfolding on_message on_identity
  on_message-IsTrusted topic from bytes at_ms d v =
      elim (Bool-cases (bytes_eq topic chat_topic || bytes_eq topic legacy_chat_topic)) [
        | inl c ↦ rw (on_message, c) (subst (IsTrusted e) (sym (on_chat-bindings topic bytes d)) v)
        | inr c ↦ elim (Bool-cases (bytes_eq topic identity_topic)) [
          | inl i ↦ elim (Option-cases (to_pubkey from)) [
            | inl p ↦ rw (on_message, c, i, p) v
            | inr (publisher, p) ↦
                rw (on_message, c, i, p)
                  (absorb-IsTrusted jb e d.state.bindings publisher
                    (parse_and_verify jb e bytes publisher) v
                    (parse_and_verify_sound jb e bytes publisher))
          ]
          | inr i ↦ rw (on_message, c, i) v
        ]
      ]

  route_event-IsTrusted :
      (now : Bytes) (ev : NetEvent) (d : Drained)
      → IsTrusted e d.state.bindings
      → IsTrusted e (route_event e j jp jb to_pubkey own now ev d).state.bindings
  unfolding route_event failure
  route_event-IsTrusted now (subscription_change topic peer joined) d v =
      subst (IsTrusted e) (sym (on_subscription-bindings topic peer joined d)) v
  route_event-IsTrusted now (peer_down peer reason) d v = v
  route_event-IsTrusted now (message topic from bytes at_ms) d v =
      on_message-IsTrusted topic from bytes at_ms d v
  route_event-IsTrusted now (error x) d v = v
  route_event-IsTrusted now (peer_up peer addrs) d v = v

  route_all-IsTrusted :
      (now : Bytes) (evs : List NetEvent) (d : Drained)
      → IsTrusted e d.state.bindings
      → IsTrusted e (route_all e j jp jb to_pubkey own now evs d).state.bindings
  unfolding route_all
  route_all-IsTrusted now [] d v = v
  route_all-IsTrusted now (ev ∷ evs) d v =
      route_all-IsTrusted now evs (route_event e j jp jb to_pubkey own now ev d)
        (route_event-IsTrusted now ev d v)

  pub flush_all-kept :
      (now : Bytes) (topics : List Bytes) (st : AppState)
      → kept (flush_all e j jp jb to_pubkey own now topics st) ≡ kept st
  unfolding flush_all
  flush_all-kept now [] st = refl
  flush_all-kept now (topic ∷ topics) st =
      flush_all-kept now topics (flush_pending_for now topic st)
      ∙ flush_pending_for-kept now topic st

  take_events-bindings :
      (st : AppState) → (take_events e j jp jb to_pubkey own st).1.bindings ≡ st.bindings
  unfolding take_events
  take_events-bindings st = elim (Option-cases st.net) [
    | inl h ↦ rw (take_events, h) refl
    | inr (n, h) ↦ rw (take_events, h) refl
  ]

  -- Whatever events the transport delivers, the page's table of links holds under every peer only
  -- bindings about that peer whose signatures verify, if it did so before.
  pub drain_net_events-IsTrusted :
      (now : Bytes) (st : AppState)
      → IsTrusted e st.bindings
      → IsTrusted e (drain_net_events e j jp jb to_pubkey own now st).bindings
  unfolding drain_net_events settle
  drain_net_events-IsTrusted now st v =
      let (events, st') = take_events e j jp jb to_pubkey own st in
      let start : Drained = record {
        state = st';
        opaque = [];
        errors = [];
        topics_to_flush = [];
      } in
      let d = route_all e j jp jb to_pubkey own now events start in
      subst (IsTrusted e) (sym (ap (λ x. x.0) (flush_all-kept now d.topics_to_flush _))) (
        route_all-IsTrusted now events start
          (subst (IsTrusted e) (sym (take_events-bindings st)) v))
