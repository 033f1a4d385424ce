-- ===== src/Relaye/Callback.antt =====
-- `handle_callback` and `handle_result` of crates/relaye/src/oauth_atproto.rs: the code of a finished
-- login is exchanged for a token, and a link to the account of the token is signed.
pub mod Bound
pub mod Once
use laye.Base.{
  ℕ, ◌∷◌, [], ◌++◌, List, Bytes, Bool, true, false, Option, none, some, codes, length, ◌==◌,
  bytes_eq, if◌then◌else◌, Result, ok, err, ok_or,
}
use laye.Base.Maps.{Map, lookup}
use laye.Base.Try.{◌>>=◌, ◌>>◌, map_err, require}
use laye.Me.Keys.{Ed25519}
use laye.Me.Claims.{BindingClaim, SignedBinding, binding_canonical_bytes}
use laye.Me.Wire.{BindingJson, binding_to_json}
use laye.Relaye.Flows.{FlowState, FlowCache, take_flow, insert_result, get_result}
use laye.Relaye.Resolve.{AuthServerMetadata, is_success}
use laye.Relaye.Resolve as Resolve
use laye.Relaye.Dpop.{
  FlowError, DpopResponse, Poster, post_form_with_dpop, bad_request_json, bad_peer_pubkey, resolve,
  http, token, token_missing, sub_mismatch, unknown_state, sign_failed,
}

-- What a flow keeps for its callback.
pub record FlowSecrets (Key : Type 0) : Type 0 where
  pub auth_meta : AuthServerMetadata
  pub dpop_key : Key
  pub pkce_verifier : Bytes
  pub dpop_nonce_auth : Option Bytes

pub record ClientConfig : Type 0 where
  pub client_id : Bytes
  pub redirect_uri : Bytes
  pub client_kid : Bytes

-- The rest of the third-party code: the HTTP client's construction, the client's assertion for an
-- issuer (the empty text where it can not be signed), the string `sub` of a JSON object, `hex::decode`,
-- the writer of a binding, and the printer of a signing error.
pub record Calls (World : Type 0) (e : Ed25519) : Type 0 where
  pub client : Result Bytes (Unit {0})
  pub assertion : ClientConfig → Bytes → World → Bytes × World
  pub read_sub : Bytes → Result Bytes (Option Bytes)
  pub decode_hex : Bytes → Option Bytes
  pub write_binding : BindingJson → Result Bytes Bytes
  pub print_signing : e.SigningError → Bytes

unfoldable pub query_param : Bytes → Map Bytes → Result FlowError Bytes
query_param name query = ok_or (lookup name query) (bad_request_json (codes "missing ?" ++ name))

module _ {World Key : Type 0} (e : Ed25519) (p : Poster World Key) (calls : Calls World e) where
  unfoldable pub token_form :
      ClientConfig → Bytes → Bytes → FlowSecrets Key → World → List (Bytes × Bytes) × World
  token_form cfg issuer code s w =
      let (assertion, w') = calls.assertion cfg issuer w in
      (
        (codes "grant_type", codes "authorization_code")
            ∷ (codes "code", code)
            ∷ (codes "code_verifier", s.pkce_verifier)
            ∷ (codes "client_id", cfg.client_id)
            ∷ (
              codes "client_assertion_type",
              codes "urn:ietf:params:oauth:client-assertion-type:jwt-bearer",
            )
            ∷ (codes "client_assertion", assertion)
            ∷ (codes "redirect_uri", cfg.redirect_uri)
            ∷ [],
        w',
      )

  -- The account that the answer of the token endpoint names.
  unfoldable pub token_subject : DpopResponse → Result FlowError Bytes
  token_subject r = do
    success ← require (is_success r.status) (token r.status r.body)
    sub ← map_err (λ x. token_missing (codes "token body json: " ++ x)) (calls.read_sub r.body)
    ok_or sub (token_missing (codes "sub"))

  unfoldable pub exchange :
      ClientConfig → Bytes → FlowSecrets Key → World → Result FlowError Bytes × World
  unfolding token_form token_subject
  exchange cfg code s w = elim calls.client [
    | err x ↦ (err (resolve (Resolve.http x)), w)
    | ok u ↦
        let (r, w') =
          post_form_with_dpop p s.auth_meta.token_endpoint s.dpop_key s.dpop_nonce_auth
            (token_form cfg s.auth_meta.issuer code s) w in
        (r >>= token_subject, w')
  ]

  unfoldable pub decode_peer_pubkey : Bytes → Result FlowError Bytes
  decode_peer_pubkey hexstr = do
    bytes ← ok_or (calls.decode_hex hexstr) bad_peer_pubkey
    sized ← require (length bytes == 32) bad_peer_pubkey
    ok bytes

  unfoldable pub sign_link : e.Keypair → BindingClaim → Result FlowError SignedBinding
  sign_link keypair claim = do
    signature ←
        map_err (λ x. sign_failed (calls.print_signing x))
          (e.sign keypair (binding_canonical_bytes claim))
    signer ←
        ok_or (e.public_bytes keypair) (sign_failed (codes "relay pubkey not Ed25519: wrong kind"))
    ok (record { claim = claim; signature = signature; signer_pubkey = signer })

  -- The token must be of the account that the flow was started for. The time is in seconds.
  unfoldable pub bind_flow :
      ℕ → e.Keypair → FlowState (FlowSecrets Key) → Bytes → Result FlowError SignedBinding
  unfolding decode_peer_pubkey sign_link
  bind_flow now keypair flow sub = do
    same ← require (bytes_eq sub flow.did) (sub_mismatch flow.did sub)
    peer ← decode_peer_pubkey flow.peer_pubkey_hex
    sign_link keypair (record {
      peer_pubkey = peer;
      provider = codes "atproto";
      canonical_id = flow.did;
      handle = some (b'@' ∷ flow.handle);
      issued_at = now;
    })

  abbrev pub Cache : Type 0
  Cache = FlowCache (FlowSecrets Key)

  abbrev pub redirect_target : Bytes → Bytes
  redirect_target state = codes "/me/?atproto_result=" ++ state

  -- The end of the callback: the signed link goes into the cache.
  unfoldable pub store_link :
      ℕ → Bytes → Cache → Result FlowError SignedBinding → Result FlowError Bytes × Cache
  store_link now state cache (err x) = (err x, cache)
  store_link now state cache (ok b) =
      (ok (redirect_target state), insert_result _ now state b cache)

  -- After the flow is taken: it is gone, whatever the exchange brings.
  unfoldable pub finish_flow :
      ℕ
      → ℕ
      → ClientConfig
      → e.Keypair
      → Bytes
      → Bytes
      → FlowState (FlowSecrets Key)
      → Cache
      → World
      → (Result FlowError Bytes × Cache) × World
  unfolding exchange bind_flow store_link
  finish_flow later secs cfg keypair code state flow cache w =
      let (sub, w') = exchange cfg code flow.secrets w in
      (store_link later state cache (sub >>= bind_flow secs keypair flow), w')

  unfoldable pub callback_params : Map Bytes → Result FlowError (Bytes × Bytes)
  unfolding query_param
  callback_params query = do
    code ← query_param (codes "code") query
    state ← query_param (codes "state") query
    ok (code, state)

  -- `now` and `later` are the instants at which the cache is asked, `secs` the clock of the claim.
  unfoldable pub handle_callback :
      ℕ
      → ℕ
      → ℕ
      → Map Bytes
      → ClientConfig
      → e.Keypair
      → Cache
      → World
      → (Result FlowError Bytes × Cache) × World
  unfolding callback_params finish_flow
  handle_callback now later secs query cfg keypair cache w = elim (callback_params query) [
    | err x ↦ ((err x, cache), w)
    | ok (code, state) ↦
        let (taken, cache') = take_flow _ now state cache in
        elim taken [
          | none ↦ ((err unknown_state, cache'), w)
          | some flow ↦ finish_flow later secs cfg keypair code state flow cache' w
        ]
  ]

  unfoldable pub handle_result : ℕ → Map Bytes → Cache → Result FlowError Bytes × Cache
  unfolding query_param
  handle_result now query cache = elim (query_param (codes "state") query) [
    | err x ↦ (err x, cache)
    | ok state ↦
        let (found, cache') = get_result _ now state cache in
        (
          elim found [
            | none ↦ err unknown_state
            | some b ↦
                map_err (λ x. http (codes "result json: " ++ x))
                  (calls.write_binding (binding_to_json b))
          ],
          cache',
        )
  ]
