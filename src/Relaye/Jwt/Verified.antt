-- ===== src/Relaye/Jwt/Verified.antt =====
-- The relay's tokens pass the checks of the servers that they are for.
use laye.Base.{
  ℕ, ◌≡◌, ◌∙◌, refl, ap, ◌+◌, ◌<◌, ◌%◌, ◌^◌, ◌∷◌, [], List, Bytes, true, Option, none, some, codes,
  ltb, bytes_eq, bytes_eq_refl, ok, arith,
}
use laye.Relaye.Jwt.{
  string, Jose, to_uppercase, public_jwk, dpop_header, dpop_claims, dpop_proof, assertion_header,
  assertion_claims, client_assertion,
}
use laye.Relaye.Jwt.Opened.{
  at, Verifier, IsSound, ReadsBack, is_text, is_expected, text_bytes, verifies, accepts_dpop,
  accepts_assertion, open_jwt, Opened, open_jwt-sign_es256_jwt,
}

module _ {Key : Type 0} (j : Jose Key) (v : Verifier) where
  is_text_field :
      {t s : Bytes} {path : List Bytes}
      → v.field t path ≡ some (string s)
      → is_text (v.field t path) s ≡ true
  is_text_field {s = s} h = ap (λ x. is_text x s) h ∙ bytes_eq_refl s

  expected_nonce :
      (method url : Bytes) (nonce access_token : Option Bytes) (random : Bytes) (now : ℕ)
      → is_expected
          (at (codes "nonce" ∷ []) (dpop_claims j method url nonce access_token random now))
          nonce
        ≡ true
  unfolding dpop_claims bytes_eq
  expected_nonce method url none none random now = refl
  expected_nonce method url none (some t) random now = refl
  expected_nonce method url (some n) a random now = bytes_eq_refl n

  expected_ath :
      (method url : Bytes) (nonce access_token : Option Bytes) (random : Bytes) (now : ℕ)
      → is_expected
          (at (codes "ath" ∷ []) (dpop_claims j method url nonce access_token random now))
          (elim access_token [ none ↦ none | some t ↦ some (j.b64url_encode (j.sha256 t)) ])
        ≡ true
  unfolding dpop_claims bytes_eq
  expected_ath method url none none random now = refl
  expected_ath method url (some n) none random now = refl
  expected_ath method url none (some t) random now = bytes_eq_refl (j.b64url_encode (j.sha256 t))
  expected_ath method url (some n) (some t) random now =
      bytes_eq_refl (j.b64url_encode (j.sha256 t))

  -- The coordinates in the header are those that verify what the key signs.
  verifies_jwk :
      (key : Key) (h m : Bytes) (o : Opened)
      → IsSound j v
      → ((path : List Bytes) → v.field h path ≡ at path (dpop_header j key))
      → o.signature ≡ j.sign key o.signed
      → verifies j v
          (text_bytes j v (v.field h (codes "jwk" ∷ codes "x" ∷ [])))
          (text_bytes j v (v.field h (codes "jwk" ∷ codes "y" ∷ [])))
          o
        ≡ true
  unfolding dpop_header bytes_eq public_jwk
  verifies_jwk key h m o laws rh s =
      let (x, (y, (p, good))) = laws.verify-sign key in
      let here : text_bytes j v (v.field h (codes "jwk" ∷ codes "x" ∷ [])) ≡ some x =
        rw (rh (codes "jwk" ∷ codes "x" ∷ []), p) (laws.decode-encode x) in
      let there : text_bytes j v (v.field h (codes "jwk" ∷ codes "y" ∷ [])) ≡ some y =
        rw (rh (codes "jwk" ∷ codes "y" ∷ []), p) (laws.decode-encode y) in
      rw (here, there, s) (good o.signed)

  -- Under the laws of base64url and ECDSA: the proof that the relay makes of a request is made, opens,
  -- and passes the checks of a server that looks for the method in capitals, the URL, the nonce and the
  -- access token. The header and the claims are written as JSON that reads back.
  pub accepts_dpop-dpop_proof :
      (key : Key) (method url : Bytes) (nonce access_token : Option Bytes) (random : Bytes)
      (now : ℕ)
      → IsSound j v
      → ReadsBack j v (dpop_header j key)
      → ReadsBack j v (dpop_claims j method url nonce access_token random now)
      → (t : Bytes) × ((o : Opened) × ((dpop_proof j key method url nonce access_token random now
              ≡ ok t)
            × ((open_jwt j v t ≡ some o)
                × (accepts_dpop j v (to_uppercase method) url nonce access_token o ≡ true))))
  unfolding dpop_proof dpop_header dpop_claims bytes_eq
  accepts_dpop-dpop_proof key method url nonce access_token random now laws (h, (eh, rh))
        (c, (ec, rc)) =
      let (t, (made, opened)) =
        open_jwt-sign_es256_jwt j v (dpop_header j key)
          (dpop_claims j method url nonce access_token random now) key h c laws eh ec in
      (
        t,
        (
          _,
          (
            made,
            (
              opened,
              rw
                  (
                    is_text_field (rh (codes "typ" ∷ [])),
                    is_text_field (rh (codes "alg" ∷ [])),
                    is_text_field (rh (codes "jwk" ∷ codes "kty" ∷ [])),
                    is_text_field (rh (codes "jwk" ∷ codes "crv" ∷ [])),
                    is_text_field (rc (codes "htm" ∷ [])),
                    is_text_field (rc (codes "htu" ∷ [])),
                    rc (codes "nonce" ∷ []),
                    expected_nonce method url nonce access_token random now,
                    rc (codes "ath" ∷ []),
                    expected_ath method url nonce access_token random now,
                  )
                  (verifies_jwk key h c _ laws rh refl),
            ),
          ),
        ),
      )

  -- Under the laws of base64url and ECDSA: the assertion that the relay makes at `now` is made, opens,
  -- and passes until 60 seconds later the checks of the issuer that it is for, which knows the client's
  -- key. The clock is far from the end of 64 bits, and the header and the claims are written as JSON that
  -- reads back.
  pub accepts_assertion-client_assertion :
      (key : Key) (kid client_id issuer random : Bytes) (now later : ℕ)
      → IsSound j v
      → ReadsBack j v (assertion_header j kid)
      → ReadsBack j v (assertion_claims j client_id issuer random now)
      → now + 60 < 2 ^ 64
      → later < now + 60
      → (t : Bytes) × ((o : Opened) × ((client_assertion j key kid client_id issuer random now
              ≡ ok t)
            × ((open_jwt j v t ≡ some o)
                × (accepts_assertion j v
                      (j.point key).0
                      (j.point key).1
                      kid
                      client_id
                      issuer
                      later
                      o
                    ≡ true))))
  unfolding client_assertion assertion_header assertion_claims bytes_eq
  accepts_assertion-client_assertion key kid client_id issuer random now later laws (h, (eh, rh))
        (c, (ec, rc)) bound soon =
      let (t, (made, opened)) =
        open_jwt-sign_es256_jwt j v (assertion_header j kid)
          (assertion_claims j client_id issuer random now) key h c laws eh ec in
      let (x, (y, (p, good))) = laws.verify-sign key in
      let fresh : ltb later ((now + 60) % 2 ^ 64) ≡ true = ground (arith, bound, soon) in
      (
        t,
        (
          _,
          (
            made,
            (
              opened,
              rw
                  (
                    is_text_field (rh (codes "alg" ∷ [])),
                    is_text_field (rh (codes "kid" ∷ [])),
                    is_text_field (rc (codes "iss" ∷ [])),
                    is_text_field (rc (codes "sub" ∷ [])),
                    is_text_field (rc (codes "aud" ∷ [])),
                    rc (codes "exp" ∷ []),
                    fresh,
                    p,
                  )
                  (good _),
            ),
          ),
        ),
      )
