-- ===== src/Relaye/Start/Waiting.antt =====
-- What waits after a start.
use laye.Base.{
  ℕ, ◌≡◌, ◌∙◌, refl, ap, sym, ◌<◌, ◌-◌, ◌++◌, Bytes, Option, none, some, codes, get_elem?, arith,
  Result, ok, err, Result-cases, inl, inr,
}
use laye.Base.Try.{map_err, Result->>=, map_err_sound}
use laye.Me.Hex.{hex_lower}
use laye.Me.Keys.{Ed25519}
use laye.Relaye.Flows.{FlowState, flow_ttl, take_flow, insert_flow}
use laye.Relaye.Flows.Expiry.{take_flow-insert_flow}
use laye.Relaye.Resolve.{
  Web, Resolved, normalize_handle, resolve_login, resolve_handle_to_did, fetch_did_document,
  verify_handle_claim, extract_pds_url, fetch_pds_metadata, fetch_auth_server_metadata,
}
use laye.Relaye.Resolve.Claimed.{resolve_login_sound}
use laye.Relaye.Dpop.{FlowError, DpopResponse, Poster, resolve, post_form_with_dpop}
use laye.Relaye.Callback.{FlowSecrets, ClientConfig, Calls, Cache, decode_peer_pubkey}
use laye.Relaye.Start.{
  Drawn, StartJson, StartRequest, par_form, read_par, prepare, waiting_flow, stash,
  ask_authorization, handle_start,
}

module _ {World Key : Type 0} (e : Ed25519) (p : Poster World Key) (calls : Calls World e)
    (web : Web) (json : StartJson) where
  stash_sound :
      (now : ℕ) (cfg : ClientConfig) (peer : Bytes) (r : Resolved web) (state : Bytes)
      (d : Drawn Key) (response : DpopResponse) (cache cache' : Cache e p calls)
      (uri : Result FlowError Bytes) {answer : Bytes}
      → stash e p calls web json now cfg peer r state d response cache uri ≡ (ok answer, cache')
      → insert_flow
          (FlowSecrets Key)
          now
          state
          (waiting_flow e p calls web json now peer r d response.new_nonce)
          cache
        ≡ cache'
  unfolding stash
  stash_sound now cfg peer r state d response cache cache' (err x) h =
      absurd (ground (arith, ap (λ y. y.0) h))
  stash_sound now cfg peer r state d response cache cache' (ok uri) h = ap (λ y. y.1) h

  ask_authorization_sound :
      (now : ℕ) (cfg : ClientConfig) (d : Drawn Key) (cache cache' : Cache e p calls) (peer : Bytes)
      (r : Resolved web) (state : Bytes) (w w' : World) {answer : Bytes}
      → ask_authorization e p calls web json now cfg d cache (peer, r, state) w
        ≡ ((ok answer, cache'), w')
      → (nonce : Option Bytes) × (insert_flow
            (FlowSecrets Key)
            now
            state
            (waiting_flow e p calls web json now peer r d nonce)
            cache
          ≡ cache')
  unfolding ask_authorization
  ask_authorization_sound now cfg d cache cache' peer r state w w' {answer} h =
      elim (Result-cases
        (post_form_with_dpop p r.auth_meta.pushed_authorization_request_endpoint d.dpop_key none
          (par_form e p calls web json cfg r d state) w).0) [
            | inl (x, a) ↦ absurd (
                ground (
                  arith,
                  ap (λ (y : (Result FlowError Bytes × Cache e p calls) × World). y.0.0)
                      (rw (ask_authorization, a) at h),
                ))
            | inr (response, a) ↦ (
              response.new_nonce,
              stash_sound now cfg peer r state d response cache cache'
                  (read_par e p calls web json response)
                  (ap (λ (y : (Result FlowError Bytes × Cache e p calls) × World). y.0)
                    (rw (ask_authorization, a) at h)),
            )
          ]

  -- A login resolves to its handle in normal form.
  resolve_login-handle :
      (raw : Bytes) (r : Resolved web)
      → resolve_login web raw ≡ ok r
      → normalize_handle raw ≡ ok r.handle
  unfolding resolve_login
  resolve_login-handle raw r h =
      let (handle, (n, h1)) = Result->>= (normalize_handle raw) _ h in
      let (did, (d, h2)) = Result->>= (resolve_handle_to_did web handle) _ h1 in
      let (doc, (f, h3)) = Result->>= (fetch_did_document web did) _ h2 in
      let (u, (c, h4)) = Result->>= (verify_handle_claim handle doc) _ h3 in
      let (pds, (x, h5)) = Result->>= (extract_pds_url doc) _ h4 in
      let (server, (y, h6)) = Result->>= (fetch_pds_metadata web pds) _ h5 in
      let (meta, (z, h7)) = Result->>= (fetch_auth_server_metadata web server) _ h6 in
      let same : handle ≡ r.handle = ground (arith, h7) in n ∙ ap ok same

  -- What is prepared is of the request: its peer, and its handle resolved.
  record IsPrepared (body : Bytes) (req : StartRequest) (peer : Bytes) (r : Resolved web)
      : Type 0 where
    pub is_request : json.read_start body ≡ ok req
    pub is_peer : decode_peer_pubkey e p calls req.peer_pubkey_hex ≡ ok peer
    pub resolves : resolve_login web req.handle ≡ ok r

  prepare_sound :
      (body : Bytes) (d : Drawn Key) {peer : Bytes} {r : Resolved web} {state : Bytes}
      → prepare e p calls web json body d ≡ ok (peer, r, state)
      → (req : StartRequest) × IsPrepared body req peer r
  unfolding prepare
  prepare_sound body d {peer} {r} {state} h =
      let (req, (a, h1)) = Result->>= (map_err _ (json.read_start body)) _ h in
      let (q, (b, h2)) = Result->>= (decode_peer_pubkey e p calls req.peer_pubkey_hex) _ h1 in
      let (found, (c, h3)) = Result->>= (map_err resolve (resolve_login web req.handle)) _ h2 in
      let (u, (g, h4)) = Result->>= (map_err _ calls.client) _ h3 in
      (
        req,
        record {
          is_request = map_err_sound _ (json.read_start body) a;
          is_peer = b ∙ ap ok (ground (arith, h4));
          resolves =
              map_err_sound resolve (resolve_login web req.handle) c ∙ ap ok (ground (arith, h4));
        },
      )

  -- After a start that succeeds, the flow that waits under its state for ten minutes is of the peer of
  -- the request and of the request's handle in normal form, and the document of the flow's DID names that
  -- handle.
  pub handle_start_sound :
      (now asked : ℕ) (body : Bytes) (cfg : ClientConfig) (d : Drawn Key)
      (cache cache' : Cache e p calls) (w w' : World) {answer : Bytes}
      → asked - now < flow_ttl
      → handle_start e p calls web json now body cfg d cache w ≡ ((ok answer, cache'), w')
      → (req : StartRequest) × (peer : Bytes) × (r : Resolved web) × (state : Bytes)
        × (flow : FlowState (FlowSecrets Key)) × (((json.read_start body ≡ ok req)
              × ((decode_peer_pubkey e p calls req.peer_pubkey_hex ≡ ok peer)
                  × ((normalize_handle req.handle ≡ ok flow.handle)
                      × (prepare e p calls web json body d ≡ ok (peer, r, state)))))
            × (((take_flow (FlowSecrets Key) asked state cache').0 ≡ some flow)
                × ((flow.peer_pubkey_hex ≡ hex_lower peer)
                    × ((flow.did ≡ r.did)
                        × ((fetch_did_document web flow.did ≡ ok r.document)
                            × ((i : ℕ) × (get_elem? r.document.also_known_as i
                                  ≡ some (codes "at://" ++ flow.handle))))))))
  unfolding handle_start
  handle_start_sound now asked body cfg d cache cache' w w' {answer} y h =
      elim (Result-cases (prepare e p calls web json body d)) [
        | inl (x, k) ↦ absurd (
            ground (
              arith,
              ap (λ (z : (Result FlowError Bytes × Cache e p calls) × World). z.0.0)
                  (rw (handle_start, k) at h),
            ))
        | inr ((peer, r, state), k) ↦
            let (nonce, stored) =
              ask_authorization_sound now cfg d cache cache' peer r state w w'
                (rw (handle_start, k) at h) in
            let flow = waiting_flow e p calls web json now peer r d nonce in
            let (req, prepared) = prepare_sound body d k in
            let (low, (dot, (valid, (doc, (named, issuer))))) =
              resolve_login_sound web req.handle r prepared.resolves in
            (
              req,
              peer,
              r,
              state,
              flow,
              (
                (
                  prepared.is_request,
                  (prepared.is_peer, (resolve_login-handle req.handle r prepared.resolves, k)),
                ),
                (
                  ap (λ (c : Cache e p calls). (take_flow (FlowSecrets Key) asked state c).0)
                        (sym stored)
                      ∙ (take_flow-insert_flow (FlowSecrets Key) now asked asked state flow cache
                          y).0,
                  (refl, (refl, (doc, named))),
                ),
              ),
            )
      ]
