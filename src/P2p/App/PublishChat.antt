-- ===== src/P2p/App/PublishChat.antt =====
-- `publish_chat` of crates/laye-p2p/src/wasm.rs: what the page's own line of chat does to the state.
-- The drawing of the history is left out.
pub mod Delivered
use laye.Base.{
  ℕ, ◌∷◌, [], Bytes, Bool, true, false, not, Option, none, some, codes, if◌then◌else◌, Result, ok,
  err,
}
use laye.Me.Keys.{Ed25519}
use laye.Me.Wire.{Json, ChatJson}
use laye.P2p.Errors.{warn, severe}
use laye.P2p.Chat.{PlaintextChat, chat_topic, build_signed_wire, push}
use laye.P2p.App.{AppState, Outcome, fail, has_mesh_for, enqueue_send, publish_net, print_net_error}

unfoldable pub send_chat : Bytes → Bytes → AppState → Outcome
unfolding publish_net
send_chat now bytes st =
    if not (has_mesh_for chat_topic st)
    then (ok tt, enqueue_send chat_topic bytes st)
    else (let (r, st') = publish_net chat_topic bytes st in
        elim r [
          | none ↦
              fail now severe (codes "chat-publish-preinit") (codes "chat publish before net init")
                (codes "STATE.net is None") st'
          | some (ok u) ↦ (ok tt, st')
          | some (err x) ↦
              fail now warn (codes "chat-publish-cmd") (codes "chat publish failed")
                (print_net_error x) st'
        ])

-- A line that was sent goes into the page's own history.
unfoldable pub note_own : Bytes → Outcome → Outcome
note_own body (err x, st) = (err x, st)
note_own body (ok u, st) =
    (ok tt, record st { chat = push (record { who = codes "me"; body = body }) st.chat })

-- `at_ms` is what `Date.now` reads, and the key pair is the one that the `Net` was made with.
module _ (e : Ed25519) (j : Json ChatJson) (jp : Json PlaintextChat) where
  unfoldable pub publish_chat : Bytes → ℕ → e.Keypair → Bytes → AppState → Outcome
  unfolding send_chat note_own
  publish_chat now at_ms keypair body st = elim st.net [
    | none ↦
        fail now severe (codes "chat-publish-preinit") (codes "chat publish before net init")
          (codes "STATE.net is None") st
    | some n ↦ elim (build_signed_wire e j jp keypair body at_ms) [
      | none ↦
          fail now severe (codes "chat-sign") (codes "chat signed-wire build failed")
            (codes "build_signed_wire returned None") st
      | some bytes ↦ note_own body (send_chat now bytes st)
    ]
  ]
