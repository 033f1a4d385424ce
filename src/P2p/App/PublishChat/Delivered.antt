-- ===== src/P2p/App/PublishChat/Delivered.antt =====
-- A line of chat from the page that writes it to the page that shows it.
use laye.Base.{
  ℕ, ◌≡◌, ◌≢◌, ◌∙◌, refl, ap, ◌∷◌, [], ◌++◌, List, Bytes, true, Option, none, some, codes, bytes_eq,
  arith, Option-cases, inl, inr, ok,
}
use laye.Me.Keys.{Ed25519, IsLawful}
use laye.Me.Wire.{Json, ReadsBack, ChatJson, BindingJson}
use laye.Net.{Net, message, publish_cmd, publish, send_cmd, poll_events}
use laye.P2p.Chat.{PlaintextChat, chat_topic, build_signed_wire, push, ingest, attribute_author}
use laye.P2p.Chat.Receive.{ingest-build_signed_wire}
use laye.P2p.App.{AppState, Outcome, has_mesh_for, publish_net}
use laye.P2p.App.Pump.{
  Drained, chat_entry, on_chat, on_message, route_event, route_all, take_events, settle, flush_all,
  drain_net_events,
}
use laye.P2p.App.PublishChat.{send_chat, note_own, publish_chat}

-- A page to whose transport one chat message is delivered.
unfoldable pub deliver : Bytes → Bytes → ℕ → Net → AppState → AppState
deliver from wire at_ms n st = record st {
  net = some (record n { events = message chat_topic from wire at_ms ∷ [] });
}

module _ (e : Ed25519) (j : Json ChatJson) (jp : Json PlaintextChat) (jb : Json (List BindingJson))
    (to_pubkey : Bytes → Option Bytes) where
  on_chat_lem :
      (own : Option Bytes) (wire : Bytes) (d : Drained)
      → (on_chat e j jp jb to_pubkey own chat_topic wire d).state.chat
        ≡ elim (ingest e j jp chat_topic wire own d.state.peer_id_hex) [
          | none ↦ d.state.chat
          | some incoming ↦ push (chat_entry e j jp jb to_pubkey own incoming d.state) d.state.chat
        ]
  unfolding on_chat
  on_chat_lem own wire d =
      elim (Option-cases (ingest e j jp chat_topic wire own d.state.peer_id_hex)) [
        | inl h ↦ rw (on_chat, h) refl
        | inr (c, h) ↦ rw (on_chat, h) refl
      ]

  on_chat-topics :
      (own : Option Bytes) (wire : Bytes) (d : Drained)
      → (on_chat e j jp jb to_pubkey own chat_topic wire d).topics_to_flush ≡ d.topics_to_flush
  unfolding on_chat
  on_chat-topics own wire d =
      elim (Option-cases (ingest e j jp chat_topic wire own d.state.peer_id_hex)) [
        | inl h ↦ rw (on_chat, h) refl
        | inr (c, h) ↦ rw (on_chat, h) refl
      ]

  settle-chat :
      (own : Option Bytes) (now : Bytes) (d : Drained)
      → d.topics_to_flush ≡ []
      → (settle e j jp jb to_pubkey own now d).chat ≡ d.state.chat
  unfolding settle flush_all
  settle-chat own now d h = rw (settle, h) refl

  drain-deliver :
      (own : Option Bytes) (now from wire : Bytes) (at_ms : ℕ) (n : Net) (st : AppState)
      → (drain_net_events e j jp jb to_pubkey own now (deliver from wire at_ms n st)).chat
        ≡ elim (ingest e j jp chat_topic wire own st.peer_id_hex) [
          | none ↦ st.chat
          | some incoming ↦
              push
                (chat_entry e j jp jb to_pubkey own incoming
                  (record st { net = some (record n { events = [] }) }))
                st.chat
        ]
  unfolding drain_net_events deliver take_events poll_events route_all route_event on_message
      bytes_eq chat_entry
  drain-deliver own now from wire at_ms n st =
      let start : Drained = record {
        state = record st { net = some (record n { events = [] }) };
        opaque = [];
        errors = [];
        topics_to_flush = [];
      } in
      settle-chat own now (on_chat e j jp jb to_pubkey own chat_topic wire start)
        (on_chat-topics own wire start)
      ∙ on_chat_lem own wire start

  send_chat_lem :
      (now wire : Bytes) (st : AppState) (n : Net)
      → st.net ≡ some n
      → n.receiver_alive ≡ true
      → has_mesh_for chat_topic st ≡ true
      → send_chat now wire st ≡ (
        ok tt,
        record st { net = some (record n { cmds = n.cmds ++ publish_cmd chat_topic wire ∷ [] }) },
      )
  unfolding send_chat publish_net publish send_cmd
  send_chat_lem now wire st n h a m = ground (arith, m, h, a)

  -- A line of chat on a page with a mesh goes to the transport as one signed message and into the
  -- page's history as its own. A page of another key to which the message is delivered adds the line
  -- under the author's handle, or key where it knows none; the author's page ignores its echo.
  pub drain_net_events-publish_chat :
      (kp : e.Keypair) (author other body wire now from : Bytes) (at_ms late : ℕ)
      (st there : AppState) (n m : Net)
      → IsLawful e kp
      → ReadsBack j
      → e.public_bytes kp ≡ some author
      → build_signed_wire e j jp kp body at_ms ≡ some wire
      → other ≢ author
      → st.net ≡ some n
      → n.receiver_alive ≡ true
      → has_mesh_for chat_topic st ≡ true
      → let sent = publish_chat e j jp now at_ms kp body st in
        let shown =
          drain_net_events e j jp jb to_pubkey (some other) now (deliver from wire late m there) in
        let echoed =
          drain_net_events e j jp jb to_pubkey
            (some author)
            now
            (deliver from wire late n sent.1) in
        (sent.0 ≡ ok tt)
        × ((sent.1.net ≡ some (record n { cmds = n.cmds ++ publish_cmd chat_topic wire ∷ [] }))
            × ((sent.1.chat ≡ push (record { who = codes "me"; body = body }) st.chat)
                × ((shown.chat
                      ≡ push
                          (record {
                            who = attribute_author (some there.bindings) author;
                            body = body;
                          })
                          there.chat)
                    × (echoed.chat ≡ sent.1.chat))))
  unfolding publish_chat note_own chat_entry
  drain_net_events-publish_chat kp author other body wire now from at_ms late st there n m l r p b d
        s a h =
      let ((c, (got, (who, (said, at)))), seen) =
        ingest-build_signed_wire e j jp kp author body wire other at_ms there.peer_id_hex l r p b
          d in
      let unseen =
        (ingest-build_signed_wire e j jp kp author body wire other at_ms
          (publish_chat e j jp now at_ms kp body st).1.peer_id_hex l r p b d).1 in
      let sent : publish_chat e j jp now at_ms kp body st ≡ note_own body (send_chat now wire st) =
        ground (arith, s, b) in
      let out = sent ∙ ap (note_own body) (send_chat_lem now wire st n s a h) in
      (
        ap (λ (x : Outcome). x.0) out,
        (
          ap (λ (x : Outcome). x.1.net) out,
          (
            ap (λ (x : Outcome). x.1.chat) out,
            (
              drain-deliver (some other) now from wire late m there
                  ∙ rw got (
                      ap
                        (λ a.
                          push
                            (record {
                              who = attribute_author (some there.bindings) a;
                              body = c.body;
                            })
                            there.chat)
                        who
                      ∙ ap
                          (λ t.
                            push
                              (record {
                                who = attribute_author (some there.bindings) author;
                                body = t;
                              })
                              there.chat)
                          said),
              drain-deliver (some author) now from wire late n
                    (publish_chat e j jp now at_ms kp body st).1
                  ∙ rw unseen refl,
            ),
          ),
        ),
      )
