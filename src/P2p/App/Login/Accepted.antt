-- ===== src/P2p/App/Login/Accepted.antt =====
-- Which links a login adds.
use laye.Base.{
  ◌≡◌, ◌∙◌, refl, ap, sym, subst, ◌∷◌, [], List, Bytes, Bool, not, Option, none, some, All, filter,
  codes, is_empty, bytes_eq, bytes_eq_iff, arith, Option-cases, Bool-cases, Result-cases, inl, inr,
  Result, ok, err,
}
use laye.Base.Maps.{All-insert}
use laye.Me.Keys.{Ed25519}
use laye.Me.Claims.{SignedBinding, verify_binding}
use laye.Me.Wire.{Json, BindingJson}
use laye.Net.{NetError, publish, send_cmd}
use laye.P2p.Errors.{Severity}
use laye.P2p.Identity.{identity_topic, encode_wire}
use laye.P2p.Identity.Trust.{IsAbout, IsTrusted}
use laye.P2p.App.{
  AppState, has_mesh_for, enqueue_send, publish_net, report, failure, print_net_error,
}
use laye.P2p.App.Login.{
  BrokerMessage, republish_self_bindings, add_self_binding, accept_binding, handle_login_message,
}

-- The page's own links, and the table, hold only bindings that are about their peer and verify.
pub record IsHonest (e : Ed25519) (st : AppState) : Type 0 where
  pub table : IsTrusted e st.bindings
  pub own : (pk : Bytes) → st.self_pubkey ≡ some pk → All (IsAbout e pk) st.self_bindings

-- The parts of the state that tell who the page is; `IsHonest` reads all but the last.
abbrev pub links :
    AppState → Option Bytes × (List SignedBinding × (List (Bytes × List SignedBinding) × Bytes))
links st = (st.self_pubkey, (st.self_bindings, (st.bindings, st.peer_id_hex)))

IsHonest-links : (e : Ed25519) {s t : AppState} → links s ≡ links t → IsHonest e t → IsHonest e s
IsHonest-links e {s} {t} h v = record {
  table = subst (IsTrusted e) (sym (ap (λ x. x.1.1.0) h)) v.table;
  own = λ pk p.
      subst (All (IsAbout e pk)) (sym (ap (λ x. x.1.0) h)) (v.own pk (sym (ap (λ x. x.0) h) ∙ p));
}

All-filter :
    (P : SignedBinding → Type 0) (p : SignedBinding → Bool) (bs : List SignedBinding)
    → All P bs
    → All P (filter p bs)
All-filter P p [] a = tt
All-filter P p (b ∷ bs) a = elim (Bool-cases (p b)) [
  | inl h ↦ rw (filter, h) (a.0, All-filter P p bs a.1)
  | inr h ↦ rw (filter, h) (All-filter P p bs a.1)
]

enqueue_send-links : (topic b : Bytes) (st : AppState) → links (enqueue_send topic b st) ≡ links st
unfolding enqueue_send
enqueue_send-links topic b st = refl

publish_net-links : (topic b : Bytes) (st : AppState) → links (publish_net topic b st).1 ≡ links st
unfolding publish_net publish send_cmd
publish_net-links topic b st = elim (Option-cases st.net) [
  | inl h ↦ rw (publish_net, h) refl
  | inr (n, h) ↦ rw (publish_net, h) refl
]

report-links :
    (now : Bytes) (sev : Severity) (region title why : Bytes) (st : AppState)
    → links (report now sev region title why st) ≡ links st
unfolding report failure
report-links now sev region title why st = refl

settle-links :
    (now : Bytes) (sev : Severity) (region title : Bytes) (r : Option (Result NetError (Unit {0})))
    (st : AppState)
    → links (elim r [
      | none ↦ st
      | some (ok u) ↦ st
      | some (err x) ↦ report now sev region title (print_net_error x) st
    ])
      ≡ links st
settle-links now sev region title none st = refl
settle-links now sev region title (some (ok u)) st = refl
settle-links now sev region title (some (err x)) st =
    report-links now sev region title (print_net_error x) st

pub republish-links :
    (jb : Json (List BindingJson)) (now : Bytes) (st : AppState)
    → links (republish_self_bindings jb now st) ≡ links st
unfolding republish_self_bindings
republish-links jb now st = elim (Bool-cases (is_empty st.self_bindings)) [
  | inl h ↦ rw (republish_self_bindings, h) refl
  | inr h ↦ elim (Option-cases (encode_wire jb st.self_bindings)) [
    | inl n ↦ rw (republish_self_bindings, h, n) (report-links now _ _ _ _ st)
    | inr (b, n) ↦ elim (Bool-cases (has_mesh_for identity_topic st)) [
      | inl m ↦
          rw (republish_self_bindings, h, n, m)
            (settle-links now _ _ _ (publish_net identity_topic b st).0
                (publish_net identity_topic b st).1
              ∙ publish_net-links identity_topic b st)
      | inr m ↦ rw (republish_self_bindings, h, n, m) (enqueue_send-links identity_topic b st)
    ]
  ]
]

module _ (e : Ed25519) (jb : Json (List BindingJson)) where
  add_self_binding-IsHonest :
      (b : SignedBinding) (pk : Bytes) (st : AppState)
      → IsHonest e st
      → st.self_pubkey ≡ some pk
      → IsAbout e pk b
      → IsHonest e (add_self_binding b pk st)
  unfolding add_self_binding
  add_self_binding-IsHonest b pk st v p a =
      let others =
        filter (λ (c : SignedBinding). not (bytes_eq c.claim.provider b.claim.provider))
          st.self_bindings in
      let kept : All (IsAbout e pk) (b ∷ others) =
        (a, All-filter (IsAbout e pk) _ st.self_bindings (v.own pk p)) in
      record {
        table =
            All-insert (λ entry. All (IsAbout e entry.0) entry.1) pk (b ∷ others) st.bindings kept
              v.table;
        own = λ k q. subst (λ x. All (IsAbout e x) (b ∷ others)) (ground (arith, p, q)) kept;
      }

  accept_binding-IsHonest :
      (now : Bytes) (b : SignedBinding) (st : AppState)
      → IsHonest e st
      → IsHonest e (accept_binding e jb now b st).1
  unfolding accept_binding failure
  accept_binding-IsHonest now b st v = elim (Result-cases (verify_binding e b)) [
    | inl (x, r) ↦ rw (accept_binding, r) (IsHonest-links e refl v)
    | inr (u, r) ↦ elim (Option-cases st.self_pubkey) [
      | inl p ↦ rw (accept_binding, r, p) (IsHonest-links e refl v)
      | inr (pk, p) ↦ elim (Bool-cases (bytes_eq b.claim.peer_pubkey pk)) [
        | inl s ↦
            rw (accept_binding, r, p, s)
              (IsHonest-links e (republish-links jb now (add_self_binding b pk st)) (
                add_self_binding-IsHonest b pk st v p (record {
                  peer_pubkey = (bytes_eq_iff b.claim.peer_pubkey pk).0 s;
                  verified = r;
                })))
        | inr s ↦ rw (accept_binding, r, p, s) (IsHonest-links e refl v)
      ]
    ]
  ]

  -- Whatever the broker's window sends, parsed or not, the page's own links and its table go on to hold
  -- only bindings that are about their peer and whose signatures verify.
  pub handle_login_message-IsHonest :
      (now : Bytes) (msg : Result Bytes BrokerMessage) (st : AppState)
      → IsHonest e st
      → IsHonest e (handle_login_message e jb now msg st).1
  unfolding handle_login_message failure
  handle_login_message-IsHonest now (err why) st v = IsHonest-links e refl v
  handle_login_message-IsHonest now (ok msg) st v =
      elim (Bool-cases (bytes_eq msg.type_ (codes "laye/identity/link"))) [
        | inr t ↦ rw (handle_login_message, t) v
        | inl t ↦ elim (Option-cases msg.signed) [
          | inl n ↦ rw (handle_login_message, t, n) (IsHonest-links e refl v)
          | inr (b, n) ↦ rw (handle_login_message, t, n) (accept_binding-IsHonest now b st v)
        ]
      ]
