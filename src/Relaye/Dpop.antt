-- ===== src/Relaye/Dpop.antt =====
-- `post_form_with_dpop` and `FlowError` of crates/relaye/src/oauth_atproto.rs: a form is posted with a
-- proof of possession, and once more where the server answers with a fresh nonce.
pub mod Retry
use laye.Base.{
  ℕ, zero, suc, ◌∷◌, [], ◌++◌, List, Bytes, Bool, true, false, not, ◌&&◌, Option, none, some, codes,
  is_some, find_sub, ◌==◌, if◌then◌else◌, Result, ok, err,
}
use laye.Relaye.Percent.{url_encode_form}
use laye.Relaye.Resolve.{ResolveError, is_success}

pub data FlowError : Type 0 where
  bad_request_json : Bytes → FlowError
  bad_peer_pubkey : FlowError
  resolve : ResolveError → FlowError
  jwt http : Bytes → FlowError
  dpop_retry_exhausted : FlowError
  par : ℕ → Bytes → FlowError
  par_no_request_uri : Bytes → FlowError
  token : ℕ → Bytes → FlowError
  token_missing : Bytes → FlowError
  sub_mismatch : Bytes → Bytes → FlowError
  unknown_state : FlowError
  sign_failed : Bytes → FlowError

unfoldable pub http_status : FlowError → ℕ
http_status (bad_request_json e) = 400
http_status bad_peer_pubkey = 400
http_status unknown_state = 404
http_status (resolve e) = 400
http_status (sub_mismatch e g) = 401
http_status (par s b) = 502
http_status (token s b) = 502
http_status (par_no_request_uri e) = 502
http_status (token_missing e) = 502
http_status dpop_retry_exhausted = 502
http_status (http e) = 500
http_status (jwt e) = 500
http_status (sign_failed e) = 500

-- What the HTTP client gives of an answer.
pub record PostAnswer : Type 0 where
  pub status : ℕ
  pub new_nonce : Option Bytes
  pub body : Result Bytes Bytes

pub record DpopResponse : Type 0 where
  pub status : ℕ
  pub body : Bytes
  pub new_nonce : Option Bytes

-- The client, the clock and the random numbers, over a state of the world: `proof` signs the DPoP proof
-- of a POST to the URL under the nonce, and `post` sends the proof and the body.
pub record Poster (World Key : Type 0) : Type 0 where
  pub proof : Key → Bytes → Option Bytes → World → Result Bytes Bytes × World
  pub post : Bytes → Bytes → Bytes → World → Result Bytes PostAnswer × World

-- A failing answer to the first attempt that names the marker and brings a nonce.
unfoldable pub nonce_challenge : ℕ → DpopResponse → Option Bytes
nonce_challenge attempt r =
    if attempt == 0
      && not (is_success r.status)
      && is_some (find_sub (codes "use_dpop_nonce") r.body)
    then r.new_nonce
    else none

module _ {World Key : Type 0} (p : Poster World Key) where
  unfoldable pub read_answer : Bytes → PostAnswer → Result FlowError DpopResponse
  read_answer url a = elim a.body [
    | err e ↦ err (http (codes "body " ++ (url ++ (codes ": " ++ e))))
    | ok body ↦ ok (record { status = a.status; body = body; new_nonce = a.new_nonce })
  ]

  unfoldable pub send :
      Bytes → Bytes → List (Bytes × Bytes) → World → Result FlowError DpopResponse × World
  unfolding read_answer
  send url dpop form w =
      let (r, w') = p.post url dpop (url_encode_form form) w in
      elim r [
        | err e ↦ (err (http (codes "post " ++ (url ++ (codes ": " ++ e)))), w')
        | ok a ↦ (read_answer url a, w')
      ]

  -- One attempt: the proof, the form, the POST and its body.
  unfoldable pub post_round :
      Bytes
      → Key
      → (World → List (Bytes × Bytes) × World)
      → Option Bytes
      → World
      → Result FlowError DpopResponse × World
  unfolding send
  post_round url key form_builder under w =
      let (dpop, w1) = p.proof key url under w in
      elim dpop [
        | err e ↦ (err (jwt e), w1)
        | ok proof ↦ let (form, w2) = form_builder w1 in send url proof form w2
      ]

  -- `for attempt in 0..2`, with the attempts that are left first.
  unfoldable pub post_loop :
      ℕ
      → ℕ
      → Bytes
      → Key
      → (World → List (Bytes × Bytes) × World)
      → Option Bytes
      → World
      → Result FlowError DpopResponse × World
  unfolding post_round nonce_challenge
  post_loop zero attempt url key form_builder under w = (err dpop_retry_exhausted, w)
  post_loop (suc left) attempt url key form_builder under w =
      let (r, w') = post_round url key form_builder under w in
      elim r [
        | err e ↦ (err e, w')
        | ok response ↦ elim (nonce_challenge attempt response) [
          | none ↦ (ok response, w')
          | some n ↦ post_loop left (suc attempt) url key form_builder (some n) w'
        ]
      ]

  unfoldable pub post_form_with_dpop :
      Bytes
      → Key
      → Option Bytes
      → (World → List (Bytes × Bytes) × World)
      → World
      → Result FlowError DpopResponse × World
  unfolding post_loop
  post_form_with_dpop url key initial_nonce form_builder w =
      post_loop 2 0 url key form_builder initial_nonce w
