-- ===== src/Relaye/Sign.antt =====
-- crates/relaye/src/sign_endpoint.rs: a Mastodon link is signed for whoever shows a token of the
-- account. The HTTP client, `hex` and the JSON codecs are not part of the repository.
pub mod Soundness
use laye.Base.{
  ℕ, ◌∷◌, [], ◌++◌, List, Bytes, Bool, true, false, Option, none, some, codes, length, ◌==◌, leb,
  ltb, ◌&&◌, bytes_eq, not, if◌then◌else◌, Result, ok, err, ok_or,
}
use laye.Base.Decimal.{to_string}
use laye.Base.Try.{◌>>=◌, ◌>>◌, map_err}
use laye.Me.Hex.{hex_lower}
use laye.Me.Keys.{Ed25519}
use laye.Me.Claims.{BindingClaim, binding_canonical_bytes}
use laye.Me.Wire.{Json, BindingJson}

pub record SignRequest : Type 0 where
  pub peer_pubkey_hex : Bytes
  pub provider : Bytes
  pub canonical_id : Bytes
  pub handle : Option Bytes
  pub mastodon_token : Bytes
  pub mastodon_instance : Bytes

-- The errors of third-party code are their printed texts.
pub data SignError : Type 0 where
  bad_request_json unsupported_provider : Bytes → SignError
  bad_peer_pubkey_hex : SignError
  bad_peer_pubkey_len : ℕ → SignError
  canonical_id_mismatch : Bytes → Bytes → SignError
  http_client mastodon_request : Bytes → SignError
  mastodon_status : ℕ → SignError
  mastodon_json : Bytes → SignError
  mastodon_actor_missing_url : SignError
  sign_failed response_json : Bytes → SignError

unfoldable pub http_status : SignError → ℕ
http_status (bad_request_json e) = 400
http_status (unsupported_provider p) = 400
http_status bad_peer_pubkey_hex = 400
http_status (bad_peer_pubkey_len n) = 400
http_status (canonical_id_mismatch t c) = 401
http_status (mastodon_status s) = 401
http_status (mastodon_request e) = 502
http_status (mastodon_json e) = 502
http_status mastodon_actor_missing_url = 502
http_status (http_client e) = 500
http_status (sign_failed e) = 500
http_status (response_json e) = 500

unfoldable pub error_message : SignError → Bytes
error_message (bad_request_json e) = codes "bad request JSON: " ++ e
error_message (unsupported_provider p) = codes "unsupported provider: " ++ p
error_message bad_peer_pubkey_hex = codes "peer_pubkey_hex not valid hex"
error_message (bad_peer_pubkey_len n) =
    codes "peer_pubkey_hex must decode to 32 bytes, got " ++ to_string n
error_message (canonical_id_mismatch t c) =
    codes "canonical_id mismatch: token belongs to " ++ (t ++ (codes ", claim says " ++ c))
error_message (http_client e) = codes "http client init: " ++ e
error_message (mastodon_request e) = codes "mastodon verify_credentials: " ++ e
error_message (mastodon_status s) = codes "mastodon verify_credentials: HTTP " ++ to_string s
error_message (mastodon_json e) = codes "mastodon verify_credentials JSON: " ++ e
error_message mastodon_actor_missing_url = codes "mastodon actor missing url field"
error_message (sign_failed e) = codes "sign: " ++ e
error_message (response_json e) = codes "response JSON: " ++ e

-- The third-party code that the endpoint calls; an error is its printed text.
pub record Outside : Type 0 where
  pub build_client : Result Bytes (Unit {0})
  -- A GET with a bearer token: the status, and the body as a JSON value's `url` string, if the body is
  -- JSON and if it has one.
  pub get : Bytes → Bytes → Result Bytes (ℕ × Result Bytes (Option Bytes))
  -- `hex::decode`, which takes digits of both cases.
  pub decode_hex : Bytes → Option Bytes
  pub read_request : Bytes → Result Bytes SignRequest
  pub write_response : BindingJson → Result Bytes Bytes

unfoldable pub guard : Bool → SignError → Result SignError (Unit {0})
guard b e = if b then ok tt else err e

module _ (o : Outside) where
  unfoldable pub fetch_mastodon_actor_url : Bytes → Bytes → Result SignError Bytes
  unfolding guard
  fetch_mastodon_actor_url instance_ token = do
    client ← map_err http_client o.build_client
    (status, body) ← map_err mastodon_request (
        o.get (codes "https://" ++ (instance_ ++ codes "/api/v1/accounts/verify_credentials"))
          token)
    success ← guard (leb 200 status && ltb status 300) (mastodon_status status)
    url ← map_err mastodon_json body
    ok_or url mastodon_actor_missing_url

  unfoldable pub decode_peer_pubkey : Bytes → Result SignError Bytes
  unfolding guard
  decode_peer_pubkey hexstr = do
    bytes ← ok_or (o.decode_hex hexstr) bad_peer_pubkey_hex
    sized ← guard (length bytes == 32) (bad_peer_pubkey_len (length bytes))
    ok bytes

  module _ (e : Ed25519) (print_signing : e.SigningError → Bytes) where
    -- The claim is signed, and written with the key of the signer.
    unfoldable pub sign_claim : BindingClaim → e.Keypair → Result SignError Bytes
    sign_claim claim keypair = do
      signature ←
          map_err (λ x. sign_failed (print_signing x))
            (e.sign keypair (binding_canonical_bytes claim))
      signer ←
          ok_or (e.public_bytes keypair)
            (sign_failed (codes "signer pubkey not Ed25519: wrong kind"))
      let response : BindingJson = record {
        peer_pubkey_hex = hex_lower claim.peer_pubkey;
        provider = claim.provider;
        canonical_id = claim.canonical_id;
        handle = claim.handle;
        issued_at = claim.issued_at;
        signature_hex = hex_lower signature;
        signer_pubkey_hex = hex_lower signer;
      }
      map_err response_json (o.write_response response)

    -- The time in seconds is the first argument.
    unfoldable pub handle_sign : ℕ → Bytes → e.Keypair → Result SignError Bytes
    unfolding guard fetch_mastodon_actor_url decode_peer_pubkey sign_claim
    handle_sign now body keypair = do
      req ← map_err bad_request_json (o.read_request body)
      mastodon ←
          guard (bytes_eq req.provider (codes "mastodon")) (unsupported_provider req.provider)
      peer ← decode_peer_pubkey req.peer_pubkey_hex
      actor ← fetch_mastodon_actor_url req.mastodon_instance req.mastodon_token
      owner ← guard (bytes_eq actor req.canonical_id) (canonical_id_mismatch actor req.canonical_id)
      sign_claim
          (record {
            peer_pubkey = peer;
            provider = req.provider;
            canonical_id = req.canonical_id;
            handle = req.handle;
            issued_at = now;
          })
          keypair
