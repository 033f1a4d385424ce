-- ===== src/Relaye/Start.antt =====
-- `handle_start` of crates/relaye/src/oauth_atproto.rs: a login is resolved, an authorization is asked
-- for, and the flow waits for its callback.
pub mod Waiting
use laye.Base.{
  ℕ, ◌∷◌, [], ◌++◌, List, Bytes, Bool, true, false, Option, none, some, codes, if◌then◌else◌,
  Result, ok, err, ok_or,
}
use laye.Base.Try.{◌>>=◌, ◌>>◌, map_err, require}
use laye.Me.Hex.{hex_lower}
use laye.Me.Keys.{Ed25519}
use laye.Relaye.Percent.{percent_encode}
use laye.Relaye.Flows.{FlowState, insert_flow}
use laye.Relaye.Resolve.{
  Web, Resolved, AuthServerMetadata, has_byte, is_success, normalize_handle, resolve_login,
}
use laye.Relaye.Resolve as Resolve
use laye.Relaye.Dpop.{
  FlowError, DpopResponse, Poster, post_form_with_dpop, bad_request_json, resolve, http, par,
  par_no_request_uri,
}
use laye.Relaye.Callback.{FlowSecrets, ClientConfig, Calls, Cache, decode_peer_pubkey}

pub record StartRequest : Type 0 where
  pub peer_pubkey_hex : Bytes
  pub handle : Bytes
  pub main_state : Option Bytes

pub record StartResponse : Type 0 where
  pub state : Bytes
  pub authorize_url : Bytes

-- What is drawn at random for a flow: its DPoP key, its PKCE verifier with the challenge that hashes it,
-- and a state for the case that the request brings none.
pub record Drawn (Key : Type 0) : Type 0 where
  pub dpop_key : Key
  pub pkce_verifier : Bytes
  pub pkce_challenge : Bytes
  pub random_state : Bytes

-- The JSON of the request, of the answer, and the string `request_uri` of a JSON object.
pub record StartJson : Type 0 where
  pub read_start : Bytes → Result Bytes StartRequest
  pub read_request_uri : Bytes → Result Bytes (Option Bytes)
  pub write_start : StartResponse → Result Bytes Bytes

unfoldable pub authorize_url : Bytes → Bytes → Bytes → Bytes
authorize_url endpoint client_id request_uri =
    endpoint
    ++ ((if has_byte b'?' endpoint then codes "&" else codes "?")
        ++ (percent_encode (codes "client_id")
            ++ b'='
              ∷ (percent_encode client_id
                  ++ b'&'
                    ∷ (percent_encode (codes "request_uri") ++ b'=' ∷ percent_encode request_uri))))

module _ {World Key : Type 0} (e : Ed25519) (p : Poster World Key) (calls : Calls World e)
    (web : Web) (json : StartJson) where
  unfoldable pub par_form :
      ClientConfig → Resolved web → Drawn Key → Bytes → World → List (Bytes × Bytes) × World
  par_form cfg r d state w =
      let (assertion, w') = calls.assertion cfg r.auth_meta.issuer w in
      (
        (codes "client_id", cfg.client_id)
            ∷ (
              codes "client_assertion_type",
              codes "urn:ietf:params:oauth:client-assertion-type:jwt-bearer",
            )
            ∷ (codes "client_assertion", assertion)
            ∷ (codes "response_type", codes "code")
            ∷ (codes "scope", codes "atproto transition:generic")
            ∷ (codes "redirect_uri", cfg.redirect_uri)
            ∷ (codes "state", state)
            ∷ (codes "code_challenge", d.pkce_challenge)
            ∷ (codes "code_challenge_method", codes "S256")
            ∷ (codes "login_hint", r.did)
            ∷ [],
        w',
      )

  unfoldable pub read_par : DpopResponse → Result FlowError Bytes
  read_par r = do
    success ← require (is_success r.status) (par r.status r.body)
    uri ←
        map_err (λ x. par_no_request_uri (codes "par body json: " ++ x))
          (json.read_request_uri r.body)
    ok_or uri (par_no_request_uri r.body)

  -- What is known before the authorization is asked for: the peer's key, the login, and the state.
  unfoldable pub prepare : Bytes → Drawn Key → Result FlowError (Bytes × Resolved web × Bytes)
  prepare body d = do
    req ← map_err (λ x. bad_request_json (codes "StartRequest parse: " ++ x)) (json.read_start body)
    peer ← decode_peer_pubkey e p calls req.peer_pubkey_hex
    r ← map_err resolve (resolve_login web req.handle)
    client ← map_err (λ x. resolve (Resolve.http x)) calls.client
    ok (peer, r, elim req.main_state [ none ↦ d.random_state | some s ↦ s ])

  abbrev pub waiting_flow :
      ℕ → Bytes → Resolved web → Drawn Key → Option Bytes → FlowState (FlowSecrets Key)
  waiting_flow now peer r d nonce = record {
    peer_pubkey_hex = hex_lower peer;
    handle = r.handle;
    did = r.did;
    secrets = record {
      auth_meta = r.auth_meta;
      dpop_key = d.dpop_key;
      pkce_verifier = d.pkce_verifier;
      dpop_nonce_auth = nonce;
    };
    created_at = now;
  }

  -- The end of the start: the flow goes into the cache, and the address to visit is written.
  unfoldable pub stash :
      ℕ
      → ClientConfig
      → Bytes
      → Resolved web
      → Bytes
      → Drawn Key
      → DpopResponse
      → Cache e p calls
      → Result FlowError Bytes
      → Result FlowError Bytes × Cache e p calls
  stash now cfg peer r state d response cache (err x) = (err x, cache)
  stash now cfg peer r state d response cache (ok uri) = (
    map_err (λ x. http (codes "StartResponse json: " ++ x))
        (json.write_start (record {
          state = state;
          authorize_url = authorize_url r.auth_meta.authorization_endpoint cfg.client_id uri;
        })),
    insert_flow (FlowSecrets Key) now state (waiting_flow now peer r d response.new_nonce) cache,
  )

  unfoldable pub ask_authorization :
      ℕ
      → ClientConfig
      → Drawn Key
      → Cache e p calls
      → Bytes × Resolved web × Bytes
      → World
      → (Result FlowError Bytes × Cache e p calls) × World
  unfolding par_form read_par stash
  ask_authorization now cfg d cache (peer, r, state) w =
      let (answer, w') =
        post_form_with_dpop p r.auth_meta.pushed_authorization_request_endpoint d.dpop_key none
          (par_form cfg r d state) w in
      elim answer [
        | err x ↦ ((err x, cache), w')
        | ok response ↦ (stash now cfg peer r state d response cache (read_par response), w')
      ]

  unfoldable pub handle_start :
      ℕ
      → Bytes
      → ClientConfig
      → Drawn Key
      → Cache e p calls
      → World
      → (Result FlowError Bytes × Cache e p calls) × World
  unfolding prepare ask_authorization
  handle_start now body cfg d cache w = elim (prepare body d) [
    | err x ↦ ((err x, cache), w)
    | ok known ↦ ask_authorization now cfg d cache known w
  ]
