-- ===== src/P2p/App/Pump/Handed.antt =====
-- Which messages the game gets to see.
use laye.Base.{
  ℕ, ◌≡◌, ◌∙◌, refl, sym, ap, ◌∷◌, [], ◌++◌, append_assoc, append-nil, List, Bytes, Bool, true,
  false, ◌&&◌, ◌||◌, Option, none, some, is_some, bytes_eq, bytes_eq_iff, if◌then◌else◌,
  Option-cases, Bool-cases, inl, inr,
}
use laye.Base.Maps.{Map, lookup_or, insert, lookup-insert}
use laye.Frames.{RxState}
use laye.Frames as Frames
use laye.Net.{Net, NetEvent, peer_up, peer_down, message, subscription_change, error, poll_events}
use laye.Me.Keys.{Ed25519}
use laye.Me.Wire.{Json, ChatJson, BindingJson}
use laye.P2p.Chat.{PlaintextChat, chat_topic, legacy_chat_topic, ingest}
use laye.P2p.Identity.{identity_topic}
use laye.P2p.App.{AppState, failure}
use laye.P2p.App.Pump.{
  Drained, on_subscription, on_chat, on_identity, on_message, route_event, route_all, settle,
  take_events, drain_net_events,
}
use laye.P2p.App.Pump.Routing.{flush_all-kept}

-- The bodies of the messages of a topic, in order.
abbrev pub bodies : Bytes → List NetEvent → List Bytes
bodies g [] = []
bodies g (message topic from bytes at_ms ∷ es) =
    (if bytes_eq topic g then bytes ∷ [] else []) ++ bodies g es
bodies g (subscription_change topic peer joined ∷ es) = bodies g es
bodies g (peer_down peer reason ∷ es) = bodies g es
bodies g (peer_up peer addrs ∷ es) = bodies g es
bodies g (error x ∷ es) = bodies g es

queue-insert :
    (g topic bytes : Bytes) (m : Map (List Bytes))
    → lookup_or [] g (insert topic (lookup_or [] topic m ++ bytes ∷ []) m)
      ≡ lookup_or [] g m ++ (if bytes_eq topic g then bytes ∷ [] else [])
queue-insert g topic bytes m =
    ap (λ (o : Option (List Bytes)). elim o [ none ↦ [] | some v ↦ v ])
      (lookup-insert topic g (lookup_or [] topic m ++ bytes ∷ []) m)
    ∙ elim (Bool-cases (bytes_eq topic g)) [
      | inl h ↦ rw h (ap (λ t. lookup_or [] t m ++ bytes ∷ []) ((bytes_eq_iff topic g).0 h))
      | inr h ↦ rw h (sym (append-nil (lookup_or [] g m)))
    ]

-- Every message of the topic goes to its queue behind what is there.
queue-ingest :
    (g : Bytes) (es : List NetEvent) (s : RxState)
    → lookup_or [] g (Frames.ingest es s).queues ≡ lookup_or [] g s.queues ++ bodies g es
unfolding Frames.ingest
queue-ingest g [] s = rw append-nil refl
queue-ingest g (message topic from bytes at_ms ∷ es) s =
    queue-ingest g es _
    ∙ (ap (λ t. t ++ bodies g es) (queue-insert g topic bytes s.queues)
        ∙ append_assoc (lookup_or [] g s.queues) (if bytes_eq topic g then bytes ∷ [] else [])
            (bodies g es))
queue-ingest g (subscription_change topic peer joined ∷ es) s = queue-ingest g es s
queue-ingest g (peer_down peer reason ∷ es) s = queue-ingest g es s
queue-ingest g (peer_up peer addrs ∷ es) s = queue-ingest g es s
queue-ingest g (error x ∷ es) s = queue-ingest g es s

bodies-append :
    (g : Bytes) (es : List NetEvent) (ev : NetEvent)
    → bodies g (es ++ ev ∷ []) ≡ bodies g es ++ bodies g (ev ∷ [])
bodies-append g [] ev = refl
bodies-append g (message topic from bytes at_ms ∷ es) ev =
    ap (λ t. (if bytes_eq topic g then bytes ∷ [] else []) ++ t) (bodies-append g es ev)
    ∙ sym (
        append_assoc (if bytes_eq topic g then bytes ∷ [] else []) (bodies g es)
          (bodies g (ev ∷ [])))
bodies-append g (subscription_change topic peer joined ∷ es) ev = bodies-append g es ev
bodies-append g (peer_down peer reason ∷ es) ev = bodies-append g es ev
bodies-append g (peer_up peer addrs ∷ es) ev = bodies-append g es ev
bodies-append g (error x ∷ es) ev = bodies-append g es ev

-- What one event adds to what is collected for a topic of the game, and that it leaves the queues alone.
abbrev Adds : Bytes → List NetEvent → Drained → Drained → Type 0
Adds g evs d d' =
    (d'.state.rx ≡ d.state.rx) × (bodies g d'.opaque ≡ bodies g d.opaque ++ bodies g evs)

module _ (e : Ed25519) (j : Json ChatJson) (jp : Json PlaintextChat) (jb : Json (List BindingJson))
    (to_pubkey : Bytes → Option Bytes) (own : Option Bytes) where
  -- The topics that the page keeps for itself; a link whose sender has no key is not among them.
  abbrev pub withheld : Bytes → Bytes → Bool
  withheld topic from =
      (bytes_eq topic chat_topic || bytes_eq topic legacy_chat_topic)
      || (bytes_eq topic identity_topic && is_some (to_pubkey from))

  abbrev pub handed : List NetEvent → List NetEvent
  handed [] = []
  handed (message topic from bytes at_ms ∷ es) =
      (if withheld topic from then [] else message topic from bytes at_ms ∷ []) ++ handed es
  handed (subscription_change topic peer joined ∷ es) = handed es
  handed (peer_down peer reason ∷ es) = handed es
  handed (peer_up peer addrs ∷ es) = handed es
  handed (error x ∷ es) = handed es

  on_chat-Adds :
      (g topic bytes : Bytes) (d : Drained)
      → Adds g [] d (on_chat e j jp jb to_pubkey own topic bytes d)
  unfolding on_chat
  on_chat-Adds g topic bytes d =
      elim (Option-cases (ingest e j jp topic bytes own d.state.peer_id_hex)) [
        | inl h ↦ rw (on_chat, h) (refl, sym (append-nil (bodies g d.opaque)))
        | inr (c, h) ↦ rw (on_chat, h) (refl, sym (append-nil (bodies g d.opaque)))
      ]

  on_message-Adds :
      (g topic from bytes : Bytes) (at_ms : ℕ) (d : Drained)
      → Adds g
          (handed (message topic from bytes at_ms ∷ []))
          d
          (on_message e j jp jb to_pubkey own topic from bytes at_ms d)
  unfolding on_message on_identity
  on_message-Adds g topic from bytes at_ms d =
      elim (Bool-cases (bytes_eq topic chat_topic || bytes_eq topic legacy_chat_topic)) [
        | inl c ↦ rw (on_message, c) (on_chat-Adds g topic bytes d)
        | inr c ↦ elim (Bool-cases (bytes_eq topic identity_topic)) [
          | inl i ↦ elim (Option-cases (to_pubkey from)) [
            | inl p ↦
                rw (on_message, c, i, p)
                  (refl, bodies-append g d.opaque (message topic from bytes at_ms))
            | inr (publisher, p) ↦
                rw (on_message, c, i, p) (refl, sym (append-nil (bodies g d.opaque)))
          ]
          | inr i ↦
              rw (on_message, c, i)
                (refl, bodies-append g d.opaque (message topic from bytes at_ms))
        ]
      ]

  route_event-Adds :
      (g now : Bytes) (ev : NetEvent) (d : Drained)
      → Adds g (handed (ev ∷ [])) d (route_event e j jp jb to_pubkey own now ev d)
  unfolding route_event on_subscription failure
  route_event-Adds g now (subscription_change topic peer true) d = (refl, rw append-nil refl)
  route_event-Adds g now (subscription_change topic peer false) d = (refl, rw append-nil refl)
  route_event-Adds g now (peer_down peer reason) d =
      (refl, bodies-append g d.opaque (peer_down peer reason))
  route_event-Adds g now (peer_up peer addrs) d =
      (refl, bodies-append g d.opaque (peer_up peer addrs))
  route_event-Adds g now (error x) d = (refl, rw append-nil refl)
  route_event-Adds g now (message topic from bytes at_ms) d =
      on_message-Adds g topic from bytes at_ms d

  bodies-handed :
      (g : Bytes) (ev : NetEvent) (evs : List NetEvent)
      → bodies g (handed (ev ∷ [])) ++ bodies g (handed evs) ≡ bodies g (handed (ev ∷ evs))
  bodies-handed g (message topic from bytes at_ms) evs = elim (Bool-cases (withheld topic from)) [
    | inl h ↦ rw h refl
    | inr h ↦ rw (h, append-nil) refl
  ]
  bodies-handed g (subscription_change topic peer joined) evs = refl
  bodies-handed g (peer_down peer reason) evs = refl
  bodies-handed g (peer_up peer addrs) evs = refl
  bodies-handed g (error x) evs = refl

  route_all-Adds :
      (g now : Bytes) (evs : List NetEvent) (d : Drained)
      → Adds g (handed evs) d (route_all e j jp jb to_pubkey own now evs d)
  unfolding route_all
  route_all-Adds g now [] d = (refl, sym (append-nil (bodies g d.opaque)))
  route_all-Adds g now (ev ∷ evs) d =
      let (rx1, one) = route_event-Adds g now ev d in
      let (rx2, rest) = route_all-Adds g now evs (route_event e j jp jb to_pubkey own now ev d) in
      (
        rx2 ∙ rx1,
        rest
            ∙ (ap (λ t. t ++ bodies g (handed evs)) one
                ∙ (append_assoc (bodies g d.opaque) (bodies g (handed (ev ∷ [])))
                      (bodies g (handed evs))
                    ∙ ap (λ t. bodies g d.opaque ++ t) (bodies-handed g ev evs))),
      )

  -- When the page drains its transport, the queue of a topic from which the game reads grows by the
  -- bodies of that topic's messages, each once and in the order in which they came, and by no message
  -- that the page keeps for itself: chat, and links whose sender has a key.
  pub drain_net_events-handed :
      (g now : Bytes) (st : AppState) (n : Net)
      → st.net ≡ some n
      → lookup_or [] g (drain_net_events e j jp jb to_pubkey own now st).rx.queues
        ≡ lookup_or [] g st.rx.queues ++ bodies g (handed n.events)
  unfolding drain_net_events settle take_events poll_events
  drain_net_events-handed g now st n h =
      let start : Drained = record {
        state = record st { net = some (record n { events = [] }) };
        opaque = [];
        errors = [];
        topics_to_flush = [];
      } in
      let d = route_all e j jp jb to_pubkey own now n.events start in
      let (rx, gathered) = route_all-Adds g now n.events start in
      let taken : take_events e j jp jb to_pubkey own st ≡ (n.events, start.state) =
        rw (take_events, h) refl in
      ap
        (λ (z : List NetEvent × AppState).
          lookup_or [] g
            (settle e j jp jb to_pubkey own now (
              route_all e j jp jb to_pubkey own now z.0 (record {
                state = z.1;
                opaque = [];
                errors = [];
                topics_to_flush = [];
              }))).rx.queues)
        taken
      ∙ (ap (λ k. lookup_or [] g k.1.queues)
            (flush_all-kept e j jp jb to_pubkey own now d.topics_to_flush _)
          ∙ (queue-ingest g d.opaque d.state.rx
              ∙ (ap (λ (r : RxState). lookup_or [] g r.queues ++ bodies g d.opaque) rx
                  ∙ ap (λ t. lookup_or [] g st.rx.queues ++ t) gathered)))
