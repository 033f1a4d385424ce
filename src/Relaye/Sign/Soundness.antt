-- ===== src/Relaye/Sign/Soundness.antt =====
-- What the endpoint signs, and for whom.
use laye.Base.{
  ℕ, ◌≡◌, ◌∙◌, refl, ap, sym, Bytes, Bool, true, false, some, length, IsBytes, bytes_eq,
  bytes_eq_iff, codes, arith, ok, Result-cases, Option-cases, inl, inr,
}
use laye.Base.Try.{Result->>=, map_err_sound, map_err}
use laye.Me.Keys.{Ed25519, IsLawful}
use laye.Me.Claims.{
  BindingClaim, SignedBinding, binding_canonical_bytes, verify_binding, verify_bytes,
}
use laye.Me.Wire.{
  binding_from_json, binding_to_json, IsBinding, IsKey, binding_from_json-binding_to_json,
}
use laye.Relaye.Sign.{
  SignRequest, SignError, Outside, guard, fetch_mastodon_actor_url, decode_peer_pubkey, sign_claim,
  handle_sign, response_json, bad_request_json,
}

guard_sound : (b : Bool) (x : SignError) {u : Unit {0}} → guard b x ≡ ok u → b ≡ true
unfolding guard
guard_sound true x h = refl
guard_sound false x h = absurd (ground arith)

module _ (o : Outside) (e : Ed25519) (print_signing : e.SigningError → Bytes) where
  decode_peer_pubkey_sound :
      (hexstr : Bytes) {peer : Bytes}
      → decode_peer_pubkey o hexstr ≡ ok peer
      → (o.decode_hex hexstr ≡ some peer) × (length peer ≡ 32)
  unfolding decode_peer_pubkey guard
  decode_peer_pubkey_sound hexstr {peer} h = elim (Option-cases (o.decode_hex hexstr)) [
    | inl n ↦ absurd (ground (arith, n, h))
    | inr (b, n) ↦ ground (arith, n, h)
  ]

  -- What is signed of a claim is a binding with that claim under the key of the relay, and its
  -- signature verifies.
  sign_claim_sound :
      (claim : BindingClaim) (keypair : e.Keypair) {wire : Bytes}
      → IsLawful e keypair
      → IsKey claim.peer_pubkey
      → sign_claim o e print_signing claim keypair ≡ ok wire
      → (b : SignedBinding) × ((b.claim ≡ claim)
          × ((verify_binding e b ≡ ok tt)
              × (IsBinding b × (o.write_response (binding_to_json b) ≡ ok wire))))
  unfolding sign_claim verify_binding verify_bytes binding_to_json
  sign_claim_sound claim keypair {wire} l k h =
      let m = binding_canonical_bytes claim in
      elim (Result-cases (e.sign keypair m)) [
        | inl (x, s) ↦ absurd (ground (arith, s, h))
        | inr (sig, s) ↦ elim (Option-cases (e.public_bytes keypair)) [
          | inl p ↦ absurd (ground (arith, s, p, h))
          | inr (pk, p) ↦
              let b : SignedBinding = record {
                claim = claim;
                signature = sig;
                signer_pubkey = pk;
              } in
              let (key, parsed, verifies) = l.sign_verifies pk m sig p s in
              (
                b,
                (
                  refl,
                  (
                    ground (arith, parsed, verifies),
                    (
                      record {
                        peer = k;
                        signer = record {
                          bytes = l.public_IsBytes pk p;
                          size = l.public_length pk p;
                        };
                        signature = l.sign_IsBytes m sig s;
                      },
                      map_err_sound response_json (o.write_response (binding_to_json b))
                          (ground (arith, s, p, h)),
                    ),
                  ),
                ),
              )
        ]
      ]

  -- Where the endpoint answers with a signed binding, the provider was Mastodon, the account of the
  -- token is the one that the request names, and what the page reads back from the answer is a
  -- binding of the requested key to that account, with the requested handle, whose signature verifies.
  pub handle_sign_sound :
      (now : ℕ) (body : Bytes) (keypair : e.Keypair) {wire : Bytes}
      → IsLawful e keypair
      → ((s b : Bytes) → o.decode_hex s ≡ some b → IsBytes b)
      → handle_sign o e print_signing now body keypair ≡ ok wire
      → (req : SignRequest) × (b : SignedBinding) × ((o.read_request body ≡ ok req)
          × ((req.provider ≡ codes "mastodon")
              × ((fetch_mastodon_actor_url o req.mastodon_instance req.mastodon_token
                    ≡ ok req.canonical_id)
                  × ((o.decode_hex req.peer_pubkey_hex ≡ some b.claim.peer_pubkey)
                      × ((b.claim.canonical_id ≡ req.canonical_id)
                          × ((b.claim.handle ≡ req.handle)
                              × ((verify_binding e b ≡ ok tt)
                                  × ((binding_from_json (binding_to_json b) ≡ some b)
                                      × (o.write_response (binding_to_json b) ≡ ok wire)))))))))
  unfolding handle_sign
  handle_sign_sound now body keypair {wire} l hexed h =
      let (req, (r, h1)) = Result->>= (map_err bad_request_json (o.read_request body)) _ h in
      let (u, (prov, h2)) = Result->>= (guard (bytes_eq req.provider (codes "mastodon")) _) _ h1 in
      let (peer, (dec, h3)) = Result->>= (decode_peer_pubkey o req.peer_pubkey_hex) _ h2 in
      let (actor, (fetched, h4)) =
        Result->>= (fetch_mastodon_actor_url o req.mastodon_instance req.mastodon_token) _ h3 in
      let (v, (owned, h5)) = Result->>= (guard (bytes_eq actor req.canonical_id) _) _ h4 in
      let (decoded, sized) = decode_peer_pubkey_sound req.peer_pubkey_hex dec in
      let same = (bytes_eq_iff actor req.canonical_id).0 (guard_sound _ _ owned) in
      let (b, (c, (w, (k, s)))) =
        sign_claim_sound _ keypair l
          (record { bytes = hexed req.peer_pubkey_hex peer decoded; size = sized }) h5 in
      (
        req,
        b,
        (
          map_err_sound bad_request_json (o.read_request body) r,
          (
            (bytes_eq_iff req.provider (codes "mastodon")).0 (guard_sound _ _ prov),
            (
              fetched ∙ ap ok same,
              (
                decoded ∙ ap (λ (x : BindingClaim). some x.peer_pubkey) (sym c),
                (
                  ap (λ (x : BindingClaim). x.canonical_id) c,
                  (
                    ap (λ (x : BindingClaim). x.handle) c,
                    (w, (binding_from_json-binding_to_json b k, s)),
                  ),
                ),
              ),
            ),
          ),
        ),
      )
