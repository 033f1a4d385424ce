-- ===== src/Relaye/Callback/Bound.antt =====
-- What a callback signs, and that it runs once.
use laye.Base.{
  ℕ, ◌≡◌, ◌∙◌, refl, ap, sym, subst, ◌∷◌, Bytes, some, codes, length, bytes_eq, bytes_eq_iff, arith,
  Result, ok, err, Result-cases, Option-cases, inl, inr,
}
use laye.Base.Maps.{Map}
use laye.Base.Try.{◌>>=◌, require, Result->>=, require_sound}
use laye.Me.Keys.{Ed25519, IsLawful}
use laye.Me.Claims.{
  BindingClaim, SignedBinding, binding_canonical_bytes, verify_binding, verify_bytes,
}
use laye.Relaye.Flows.{FlowState, take_flow, insert_result}
use laye.Relaye.Dpop.{FlowError, Poster, unknown_state}
use laye.Relaye.Callback.{
  FlowSecrets, ClientConfig, Calls, exchange, decode_peer_pubkey, sign_link, bind_flow, Cache,
  redirect_target, store_link, finish_flow, callback_params, handle_callback,
}

module _ {World Key : Type 0} (e : Ed25519) (p : Poster World Key) (calls : Calls World e) where
  -- A link that `sign_link` makes carries the claim, and verifies.
  sign_link_sound :
      (keypair : e.Keypair) (claim : BindingClaim) {b : SignedBinding}
      → IsLawful e keypair
      → sign_link e p calls keypair claim ≡ ok b
      → (b.claim ≡ claim) × (verify_binding e b ≡ ok tt)
  unfolding sign_link verify_binding verify_bytes
  sign_link_sound keypair claim {b} l h =
      elim (Result-cases (e.sign keypair (binding_canonical_bytes claim))) [
        | inl (x, s) ↦ absurd (ground (arith, s, h))
        | inr (sig, s) ↦ elim (Option-cases (e.public_bytes keypair)) [
          | inl n ↦ absurd (ground (arith, s, n, h))
          | inr (pk, n) ↦
              let made : SignedBinding = record {
                claim = claim;
                signature = sig;
                signer_pubkey = pk;
              } in
              let same : made ≡ b = ground (arith, s, n, h) in
              let (key, parsed, verifies) =
                l.sign_verifies pk (binding_canonical_bytes claim) sig n s in
              let checked : verify_binding e made ≡ ok tt = ground (arith, parsed, verifies) in
              (
                ap (λ (x : SignedBinding). x.claim) (sym same),
                subst (λ x. verify_binding e x ≡ ok tt) same checked,
              )
        ]
      ]

  decode_peer_pubkey_sound :
      (hexstr : Bytes) {peer : Bytes}
      → decode_peer_pubkey e p calls hexstr ≡ ok peer
      → (calls.decode_hex hexstr ≡ some peer) × (length peer ≡ 32)
  unfolding decode_peer_pubkey
  decode_peer_pubkey_sound hexstr {peer} h = elim (Option-cases (calls.decode_hex hexstr)) [
    | inl n ↦ absurd (ground (arith, n, h))
    | inr (b, n) ↦ ground (arith, n, h)
  ]

  -- What a link says of the flow that it was signed for.
  pub record IsOfFlow (flow : FlowState (FlowSecrets Key)) (b : SignedBinding) : Type 0 where
    pub peer : calls.decode_hex flow.peer_pubkey_hex ≡ some b.claim.peer_pubkey
    pub provider : b.claim.provider ≡ codes "atproto"
    pub account : b.claim.canonical_id ≡ flow.did
    pub handle : b.claim.handle ≡ some (b'@' ∷ flow.handle)
    pub verifies : verify_binding e b ≡ ok tt

  bind_flow_sound :
      (now : ℕ) (keypair : e.Keypair) (flow : FlowState (FlowSecrets Key)) (sub : Bytes)
      {b : SignedBinding}
      → IsLawful e keypair
      → bind_flow e p calls now keypair flow sub ≡ ok b
      → (sub ≡ flow.did) × IsOfFlow flow b
  unfolding bind_flow
  bind_flow_sound now keypair flow sub {b} l h =
      let (u, (same, h1)) = Result->>= (require (bytes_eq sub flow.did) _) _ h in
      let (peer, (dec, h2)) = Result->>= (decode_peer_pubkey e p calls flow.peer_pubkey_hex) _ h1 in
      let (c, v) = sign_link_sound keypair _ l h2 in
      let (d, n) = decode_peer_pubkey_sound flow.peer_pubkey_hex dec in
      (
        (bytes_eq_iff sub flow.did).0 (require_sound _ _ same),
        record {
          peer = d ∙ ap (λ (x : BindingClaim). some x.peer_pubkey) (sym c);
          provider = ap (λ (x : BindingClaim). x.provider) c;
          account = ap (λ (x : BindingClaim). x.canonical_id) c;
          handle = ap (λ (x : BindingClaim). x.handle) c;
          verifies = v;
        },
      )

  -- The end of a callback that succeeds, taken apart.
  store_link_sound :
      (now : ℕ) (state : Bytes) (c c' : Cache e p calls) (r : Result FlowError SignedBinding)
      {loc : Bytes}
      → store_link e p calls now state c r ≡ (ok loc, c')
      → (b : SignedBinding) × ((r ≡ ok b)
          × ((insert_result (FlowSecrets Key) now state b c ≡ c')
              × (redirect_target e p calls state ≡ loc)))
  unfolding store_link
  store_link_sound now state c c' (err x) h = absurd (ground (arith, ap (λ x. x.0) h))
  store_link_sound now state c c' (ok b) h =
      (b, (refl, (ap (λ x. x.1) h, ground (arith, ap (λ x. x.0) h))))

  -- A callback that succeeds took a flow that waited under its state, the token's account is the one
  -- that the flow was started for, and the link that it stores binds the key of the flow to that
  -- account with the flow's handle, and verifies.
  pub handle_callback_sound :
      (now later secs : ℕ) (query : Map Bytes) (cfg : ClientConfig) (keypair : e.Keypair)
      (cache cache' : Cache e p calls) (w w' : World) {loc : Bytes}
      → IsLawful e keypair
      → handle_callback e p calls now later secs query cfg keypair cache w ≡ ((ok loc, cache'), w')
      → (code : Bytes) × (state : Bytes) × (flow : FlowState (FlowSecrets Key))
        × (b : SignedBinding) × ((callback_params e p calls query ≡ ok (code, state))
            × (((take_flow (FlowSecrets Key) now state cache).0 ≡ some flow)
                × (((exchange e p calls cfg code flow.secrets w).0 ≡ ok flow.did)
                    × (IsOfFlow flow b
                        × ((insert_result
                                (FlowSecrets Key)
                                later
                                state
                                b
                                (take_flow (FlowSecrets Key) now state cache).1
                              ≡ cache')
                            × (redirect_target e p calls state ≡ loc))))))
  unfolding handle_callback finish_flow
  handle_callback_sound now later secs query cfg keypair cache cache' w w' {loc} l h =
      elim (Result-cases (callback_params e p calls query)) [
        | inl (x, q) ↦ absurd (failed x w (rw (handle_callback, q) at h))
        | inr ((code, state), q) ↦
            elim (Option-cases (take_flow (FlowSecrets Key) now state cache).0) [
              | inl t ↦ absurd (failed unknown_state w (rw (handle_callback, q, t) at h))
              | inr (flow, t) ↦
                  let c1 = (take_flow (FlowSecrets Key) now state cache).1 in
                  let sub = (exchange e p calls cfg code flow.secrets w).0 in
                  let done : finish_flow e p calls later secs cfg keypair code state flow c1 w
                      ≡ ((ok loc, cache'), w') =
                    rw (handle_callback, q, t) at h in
                  let (b, (bound, (stored, target))) =
                    store_link_sound later state c1 cache'
                      (sub >>= bind_flow e p calls secs keypair flow) (ap (λ x. x.0) done) in
                  let (s, (got, signed)) = Result->>= sub _ bound in
                  let (same, about) = bind_flow_sound secs keypair flow s l signed in
                  (code, state, flow, b, (q, (t, (got ∙ ap ok same, (about, (stored, target))))))
            ]
      ]
    where
      failed :
          (x : FlowError) (v : World) {c : Cache e p calls}
          → ◌≡◌ {A = (Result FlowError Bytes × Cache e p calls) × World}
              ((err x, c), v)
              ((ok loc, cache'), w')
          → ⊥
      failed x v {c} r = ground (arith, ap (λ y. y.0.0) r)
