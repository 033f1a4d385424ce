-- ===== src/Relaye/Jwt.antt =====
-- The tokens of crates/relaye/src/oauth_atproto.rs: `sign_es256_jwt`, `dpop_proof`, `client_assertion`,
-- PKCE and `public_jwk`. What is drawn at random and the clock are arguments.
pub mod Opened
pub mod Verified
use laye.Base.{
  ℕ, ◌+◌, ◌-◌, ◌%◌, ◌^◌, ◌∷◌, [], ◌++◌, List, Bytes, Bool, true, false, ◌&&◌, Option, none, some,
  codes, map, leb, bytes_eq, if◌then◌else◌, Result, ok, err, get_or_else,
}
use laye.Base.Try.{◌>>=◌, map_err}

-- A value of `serde_json`, as far as the tokens use it.
mutual
  pub data Value : Type 0 where
    string : Bytes → Value
    number : ℕ → Value
    object : Members → Value

  pub data Members : Type 0 where
    end : Members
    member : Bytes → Value → Members → Members

pub record PublicJwk : Type 0 where
  pub kty : Bytes
  pub crv : Bytes
  pub x : Bytes
  pub y : Bytes
  pub kid : Bytes
  pub use_ : Bytes
  pub alg : Bytes

-- base64url, SHA-256, `serde_json::to_vec` and P-256: `point` gives the coordinates of a key's public
-- point.
pub record Jose (Key : Type 0) : Type 0 where
  pub b64url_encode : Bytes → Bytes
  pub b64url_decode : Bytes → Option Bytes
  pub sha256 : Bytes → Bytes
  pub to_vec : Value → Result Bytes Bytes
  pub sign : Key → Bytes → Bytes
  pub point : Key → Option Bytes × Option Bytes

pub data JwtError : Type 0 where
  header_json : Bytes → JwtError
  claims_json : Bytes → JwtError

abbrev to_uppercase_code : ℕ → ℕ
to_uppercase_code c = if leb 97 c && leb c 122 then c - 32 else c

-- `str::to_uppercase` on a method, which is ASCII.
unfoldable pub to_uppercase : Bytes → Bytes
to_uppercase = map to_uppercase_code

module _ {Key : Type 0} (j : Jose Key) where
  unfoldable pub pkce_verifier : Bytes → Bytes
  pkce_verifier random = j.b64url_encode random

  unfoldable pub pkce_challenge : Bytes → Bytes
  pkce_challenge verifier = j.b64url_encode (j.sha256 verifier)

  unfoldable pub random_jti : Bytes → Bytes
  random_jti random = j.b64url_encode random

  abbrev pub signing_input : Bytes → Bytes → Bytes
  signing_input h c = j.b64url_encode h ++ b'.' ∷ j.b64url_encode c

  unfoldable pub sign_es256_jwt : Value → Value → Key → Result JwtError Bytes
  sign_es256_jwt header claims key = do
    h ← map_err header_json (j.to_vec header)
    c ← map_err claims_json (j.to_vec claims)
    ok (signing_input h c ++ b'.' ∷ j.b64url_encode (j.sign key (signing_input h c)))

  unfoldable pub public_jwk : Key → Bytes → Bool → PublicJwk
  public_jwk key kid purpose_sig =
      let (x, y) = j.point key in
      record {
        kty = codes "EC";
        crv = codes "P-256";
        x = elim x [ none ↦ [] | some b ↦ j.b64url_encode b ];
        y = elim y [ none ↦ [] | some b ↦ j.b64url_encode b ];
        kid = kid;
        use_ = if purpose_sig then codes "sig" else codes "enc";
        alg = codes "ES256";
      }

  abbrev optional : Bytes → Option Bytes → Members → Members
  optional key none rest = rest
  optional key (some s) rest = member key (string s) rest

  unfoldable pub dpop_header : Key → Value
  unfolding public_jwk
  dpop_header key =
      let jwk = public_jwk key [] true in
      object (
        member (codes "typ") (string (codes "dpop+jwt")) (
          member (codes "alg") (string (codes "ES256")) (
            member (codes "jwk")
              (object (
                member (codes "kty") (string jwk.kty) (
                  member (codes "crv") (string jwk.crv)
                    (member (codes "x") (string jwk.x) (member (codes "y") (string jwk.y) end)))))
              end)))

  unfoldable pub dpop_claims : Bytes → Bytes → Option Bytes → Option Bytes → Bytes → ℕ → Value
  unfolding to_uppercase random_jti
  dpop_claims method url nonce access_token random now = object (
      member (codes "jti") (string (random_jti random)) (
        member (codes "htm") (string (to_uppercase method)) (
          member (codes "htu") (string url) (
            member (codes "iat") (number now) (
              optional (codes "nonce") nonce (
                optional (codes "ath")
                  (elim access_token [ none ↦ none | some t ↦ some (j.b64url_encode (j.sha256 t)) ])
                  end))))))

  unfoldable pub dpop_proof :
      Key → Bytes → Bytes → Option Bytes → Option Bytes → Bytes → ℕ → Result JwtError Bytes
  unfolding sign_es256_jwt dpop_header dpop_claims
  dpop_proof key method url nonce access_token random now =
      sign_es256_jwt (dpop_header key) (dpop_claims method url nonce access_token random now) key

  unfoldable pub assertion_header : Bytes → Value
  assertion_header kid = object (
      member (codes "typ") (string (codes "JWT"))
        (member (codes "alg") (string (codes "ES256")) (member (codes "kid") (string kid) end)))

  unfoldable pub assertion_claims : Bytes → Bytes → Bytes → ℕ → Value
  unfolding random_jti
  assertion_claims client_id audience random now = object (
      member (codes "iss") (string client_id) (
        member (codes "sub") (string client_id) (
          member (codes "aud") (string audience) (
            member (codes "jti") (string (random_jti random)) (
              member (codes "iat") (number now)
                (member (codes "exp") (number ((now + 60) % 2 ^ 64)) end))))))

  unfoldable pub client_assertion : Key → Bytes → Bytes → Bytes → Bytes → ℕ → Result JwtError Bytes
  unfolding sign_es256_jwt assertion_header assertion_claims
  client_assertion key kid client_id audience random now =
      sign_es256_jwt (assertion_header kid) (assertion_claims client_id audience random now) key
