-- ===== src/P2p/App/Login.antt =====
-- `handle_login_message` and `republish_self_bindings` of crates/laye-p2p/src/wasm.rs. The write to
-- IndexedDB and what only draws are left out.
pub mod Accepted
use laye.Base.{
  ℕ, ◌∷◌, [], ◌++◌, List, Bytes, Bool, true, false, not, Option, none, some, codes, em_dash, filter,
  is_empty, bytes_eq, if◌then◌else◌, Result, ok, err,
}
use laye.Base.Maps.{insert}
use laye.Net.{NetError}
use laye.Me.Keys.{Ed25519}
use laye.Me.Claims.{VerifyError, bad_signature, bad_signer_key, SignedBinding, verify_binding}
use laye.Me.Wire.{Json, ChatJson, BindingJson}
use laye.P2p.Errors.{warn, severe}
use laye.P2p.Chat.{PlaintextChat, chat_topic, build_signed_wire, push}
use laye.P2p.Identity.{identity_topic, encode_wire}
use laye.P2p.App.{
  AppState, Outcome, fail, report, has_mesh_for, enqueue_send, publish_net, print_net_error,
}

-- `BrokerMessageWire`.
pub record BrokerMessage : Type 0 where
  pub type_ : Bytes
  pub signed : Option SignedBinding

module _ (jb : Json (List BindingJson)) where
  unfoldable pub republish_self_bindings : Bytes → AppState → AppState
  republish_self_bindings now st =
      if is_empty st.self_bindings then st else elim (encode_wire jb st.self_bindings) [
        | none ↦
            report now warn (codes "identity-encode") (codes "self bindings encode failed")
              (codes "serde_json") st
        | some bytes ↦
            if not (has_mesh_for identity_topic st)
            then enqueue_send identity_topic bytes st
            else (let (r, st') = publish_net identity_topic bytes st in
                elim r [
                  | none ↦ st'
                  | some (ok u) ↦ st'
                  | some (err e) ↦
                      report now warn (codes "identity-republish")
                        (codes "self identity republish failed") (print_net_error e) st'
                ])
      ]

-- The new link goes before the others, and replaces one of the same provider.
unfoldable pub add_self_binding : SignedBinding → Bytes → AppState → AppState
add_self_binding b self_pubkey st =
    let others = filter (λ c. not (bytes_eq c.claim.provider b.claim.provider)) st.self_bindings in
    record st { self_bindings = b ∷ others; bindings = insert self_pubkey (b ∷ others) st.bindings }

-- `{e:?}`; what the escapes of a text that is printed so would change is left out.
unfoldable pub debug_verify_error : VerifyError → Bytes
debug_verify_error bad_signature = codes "BadSignature"
debug_verify_error (bad_signer_key why) =
    codes "BadSignerKey(" ++ (b'"' ∷ (why ++ b'"' ∷ codes ")"))

module _ (e : Ed25519) (jb : Json (List BindingJson)) where
  unfoldable pub accept_binding : Bytes → SignedBinding → AppState → Outcome
  unfolding republish_self_bindings add_self_binding
  accept_binding now b st = elim (verify_binding e b) [
    | err x ↦
        fail now severe (codes "login-verify")
          (codes "signed binding signature verification failed") (debug_verify_error x) st
    | ok u ↦ elim st.self_pubkey [
      | none ↦
          fail now severe (codes "login-preinit")
            (codes "login callback fired before self_pubkey is known")
            (codes "state.self_pubkey is None") st
      | some pk ↦
          if not (bytes_eq b.claim.peer_pubkey pk)
          then fail now warn (codes "login-wrong-peer")
              (codes "broker signed a binding for a different peer")
              (codes "claim.peer_pubkey != self_pubkey " ++ (em_dash ++ codes " dropping")) st
          else (ok tt, republish_self_bindings jb now (add_self_binding b pk st))
    ]
  ]

  -- The message as `serde_json` reads it, or its printed error where the text does not parse.
  unfoldable pub handle_login_message : Bytes → Result Bytes BrokerMessage → AppState → Outcome
  unfolding accept_binding
  handle_login_message now (err why) st =
      fail now warn (codes "login-parse") (codes "broker postMessage parse failed") why st
  handle_login_message now (ok msg) st =
      if not (bytes_eq msg.type_ (codes "laye/identity/link"))
      then (ok tt, st)
      else elim msg.signed [
        | none ↦
            fail now warn (codes "login-empty") (codes "broker returned no signed binding")
              (codes "msg.type_ == laye/identity/link but msg.signed == null") st
        | some b ↦ accept_binding now b st
      ]
