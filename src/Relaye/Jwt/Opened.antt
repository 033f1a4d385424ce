-- ===== src/Relaye/Jwt/Opened.antt =====
-- How a server opens a token, and what it then checks: RFC 7515, 7523 and 9449, written down here.
use laye.Base.{
  ℕ, ◌≡◌, ◌∙◌, refl, ap, ◌∷◌, [], ◌++◌, List, Bytes, Bool, true, false, ◌&&◌, Option, none, some,
  codes, ltb, bytes_eq, if◌then◌else◌, ok, arith, Lacks, split, append_assoc,
}
use laye.Relaye.Jwt.{
  Value, Members, string, number, object, end, member, Jose, signing_input, sign_es256_jwt,
}

-- What stands in a value under a path of keys, where it is not an object.
abbrev mutual
  pub at : List Bytes → Value → Option Value
  at [] (string s) = some (string s)
  at [] (number n) = some (number n)
  at [] (object ms) = none
  at (k ∷ ks) (string s) = none
  at (k ∷ ks) (number n) = none
  at (k ∷ ks) (object ms) = at_member k ks ms

  pub at_member : Bytes → List Bytes → Members → Option Value
  at_member k ks end = none
  at_member k ks (member j v rest) =
      let others = at_member k ks rest in if bytes_eq j k then at ks v else others

-- A text comes apart at a separator that its first part lacks.
split-append : (sep : ℕ) (a s : Bytes) → Lacks sep a → split sep (a ++ sep ∷ s) ≡ a ∷ split sep s
unfolding split
split-append sep [] s h = ground arith
split-append sep (c ∷ a) s h = ground (arith, h.0, split-append sep a s h.1)

split-Lacks : (sep : ℕ) (a : Bytes) → Lacks sep a → split sep a ≡ a ∷ []
unfolding split
split-Lacks sep [] h = refl
split-Lacks sep (c ∷ a) h = ground (arith, h.0, split-Lacks sep a h.1)

split-three :
    (sep : ℕ) (a b c : Bytes)
    → Lacks sep a
    → Lacks sep b
    → Lacks sep c
    → split sep ((a ++ sep ∷ b) ++ sep ∷ c) ≡ a ∷ b ∷ c ∷ []
split-three sep a b c ha hb hc =
    ap (split sep) (append_assoc a (sep ∷ b) (sep ∷ c))
    ∙ (split-append sep a (b ++ sep ∷ c) ha
        ∙ ap (λ x. a ∷ x) (split-append sep b c hb ∙ ap (λ x. b ∷ x) (split-Lacks sep c hc)))

-- Reading a JSON text's value under a path, and verifying a signature under a point of P-256.
pub record Verifier : Type 0 where
  pub field : Bytes → List Bytes → Option Value
  pub verify : Bytes → Bytes → Bytes → Bytes → Bool

-- What base64url, ECDSA and P-256 promise.
pub record IsSound {Key : Type 0} (j : Jose Key) (v : Verifier) : Type 0 where
  pub decode-encode : (b : Bytes) → j.b64url_decode (j.b64url_encode b) ≡ some b
  pub encode-Lacks : (b : Bytes) → Lacks b'.' (j.b64url_encode b)
  pub verify-sign :
      (key : Key)
      → (x : Bytes) × ((y : Bytes) × ((j.point key ≡ (some x, some y))
            × ((m : Bytes) → v.verify x y m (j.sign key m) ≡ true)))

-- The value is written, and what is written reads as it.
abbrev pub ReadsBack : {Key : Type 0} → Jose Key → Verifier → Value → Type 0
ReadsBack j v x =
    (t : Bytes) × ((j.to_vec x ≡ ok t) × ((path : List Bytes) → v.field t path ≡ at path x))

-- What a token opens to: the header, the claims, the signature and what it signs.
pub record Opened : Type 0 where
  pub header : Bytes
  pub claims : Bytes
  pub signature : Bytes
  pub signed : Bytes

abbrev pub is_text : Option Value → Bytes → Bool
is_text none t = false
is_text (some (string s)) t = bytes_eq s t
is_text (some (number n)) t = false
is_text (some (object ms)) t = false

-- Whether a claim that may be left out is what is expected, and there only if it is expected.
abbrev pub is_expected : Option Value → Option Bytes → Bool
is_expected none none = true
is_expected (some x) none = false
is_expected x (some t) = is_text x t

abbrev pub is_number : Option Value → (ℕ → Bool) → Bool
is_number none p = false
is_number (some (string s)) p = false
is_number (some (number n)) p = p n
is_number (some (object ms)) p = false

module _ {Key : Type 0} (j : Jose Key) (v : Verifier) where
  abbrev pub open_parts : List Bytes → Option Opened
  open_parts [] = none
  open_parts (h ∷ []) = none
  open_parts (h ∷ c ∷ []) = none
  open_parts (h ∷ c ∷ s ∷ []) = elim (j.b64url_decode h) [
    | none ↦ none
    | some header ↦ elim (j.b64url_decode c) [
      | none ↦ none
      | some claims ↦ elim (j.b64url_decode s) [
        | none ↦ none
        | some signature ↦ some (record {
          header = header;
          claims = claims;
          signature = signature;
          signed = h ++ b'.' ∷ c;
        })
      ]
    ]
  ]
  open_parts (h ∷ c ∷ s ∷ x ∷ xs) = none

  abbrev pub open_jwt : Bytes → Option Opened
  open_jwt token = open_parts (split b'.' token)

  abbrev pub text_bytes : Option Value → Option Bytes
  text_bytes none = none
  text_bytes (some (string s)) = j.b64url_decode s
  text_bytes (some (number n)) = none
  text_bytes (some (object ms)) = none

  -- Whether the coordinates verify the token's signature.
  abbrev pub verifies : Option Bytes → Option Bytes → Opened → Bool
  verifies none y o = false
  verifies (some x) none o = false
  verifies (some x) (some y) o = v.verify x y o.signed o.signature

  -- The checks of RFC 9449 on a proof for a request with the method and the URL, under the nonce that the
  -- server gave and for the access token that comes with the request.
  abbrev pub accepts_dpop : Bytes → Bytes → Option Bytes → Option Bytes → Opened → Bool
  accepts_dpop method url nonce access_token o =
      is_text (v.field o.header (codes "typ" ∷ [])) (codes "dpop+jwt")
      && is_text (v.field o.header (codes "alg" ∷ [])) (codes "ES256")
      && is_text (v.field o.header (codes "jwk" ∷ codes "kty" ∷ [])) (codes "EC")
      && is_text (v.field o.header (codes "jwk" ∷ codes "crv" ∷ [])) (codes "P-256")
      && is_text (v.field o.claims (codes "htm" ∷ [])) method
      && is_text (v.field o.claims (codes "htu" ∷ [])) url
      && is_expected (v.field o.claims (codes "nonce" ∷ [])) nonce
      && is_expected (v.field o.claims (codes "ath" ∷ []))
          (elim access_token [ none ↦ none | some t ↦ some (j.b64url_encode (j.sha256 t)) ])
      && verifies (text_bytes (v.field o.header (codes "jwk" ∷ codes "x" ∷ [])))
          (text_bytes (v.field o.header (codes "jwk" ∷ codes "y" ∷ []))) o

  -- The checks of RFC 7523 at the time `now` with the client's key, which the server knows under `kid`.
  abbrev pub accepts_assertion :
      Option Bytes → Option Bytes → Bytes → Bytes → Bytes → ℕ → Opened → Bool
  accepts_assertion x y kid client_id issuer now o =
      is_text (v.field o.header (codes "alg" ∷ [])) (codes "ES256")
      && is_text (v.field o.header (codes "kid" ∷ [])) kid
      && is_text (v.field o.claims (codes "iss" ∷ [])) client_id
      && is_text (v.field o.claims (codes "sub" ∷ [])) client_id
      && is_text (v.field o.claims (codes "aud" ∷ [])) issuer
      && is_number (v.field o.claims (codes "exp" ∷ [])) (ltb now)
      && verifies x y o

  -- A token opens to the texts of its header and its claims, and to a signature by its key of the two.
  pub open_jwt-sign_es256_jwt :
      (header claims : Value) (key : Key) (h c : Bytes)
      → IsSound j v
      → j.to_vec header ≡ ok h
      → j.to_vec claims ≡ ok c
      → (t : Bytes) × ((sign_es256_jwt j header claims key ≡ ok t)
          × (open_jwt t
              ≡ some (record {
                header = h;
                claims = c;
                signature = j.sign key (signing_input j h c);
                signed = signing_input j h c;
              })))
  unfolding sign_es256_jwt
  open_jwt-sign_es256_jwt header claims key h c laws eh ec = (
    signing_input j h c ++ b'.' ∷ j.b64url_encode (j.sign key (signing_input j h c)),
    (
      rw (sign_es256_jwt, eh, ec) refl,
      rw
          (
            split-three b'.' (j.b64url_encode h) (j.b64url_encode c)
                (j.b64url_encode (j.sign key (signing_input j h c))) (laws.encode-Lacks h)
                (laws.encode-Lacks c) (laws.encode-Lacks (j.sign key (signing_input j h c))),
            open_parts,
            laws.decode-encode h,
            laws.decode-encode c,
            laws.decode-encode (j.sign key (signing_input j h c)),
          )
          refl,
    ),
  )
