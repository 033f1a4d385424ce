-- ===== src/Relaye/Resolve/Claimed.antt =====
-- What holds of a handle that resolves.
use laye.Base.{
  ℕ, suc, ◌≡◌, ◌∙◌, refl, ap, ap₂, subst, sym, ◌∷◌, [], ◌++◌, List, Bytes, true, some, codes,
  get_elem?, any, map, bytes_eq, bytes_eq_iff, to_ascii_lowercase, to_ascii_lowercase_idem, arith,
  ok, Bool-cases, inl, inr,
}
use laye.Base.Trim.{trim, trim_start_matches, trim_end_matches}
use laye.Base.Try.{require, Result->>=, require_sound}
use laye.Relaye.Resolve.{
  DidDocument, AuthServerMetadata, Web, Resolved, has_byte, normalize_handle, is_valid_did,
  verify_handle_claim, resolve_handle_to_did, fetch_did_document, extract_pds_url,
  fetch_pds_metadata, fetch_auth_server_metadata, get_decoded, resolve_login, auth_meta_fetch,
}

any_sound :
    (want : Bytes) (names : List Bytes)
    → any (λ a. bytes_eq a want) names ≡ true
    → (i : ℕ) × (get_elem? names i ≡ some want)
any_sound want [] h = absurd (ground (arith, h))
any_sound want (n ∷ names) h = elim (Bool-cases (bytes_eq n want)) [
  | inl e ↦ (0, ap some ((bytes_eq_iff n want).0 e))
  | inr e ↦ let (i, p) = any_sound want names (ground (arith, e, h)) in (suc i, p)
]

verify_handle_claim_sound :
    (handle : Bytes) (doc : DidDocument) {u : Unit {0}}
    → verify_handle_claim handle doc ≡ ok u
    → (i : ℕ) × (get_elem? doc.also_known_as i ≡ some (codes "at://" ++ handle))
unfolding verify_handle_claim
verify_handle_claim_sound handle doc h =
    any_sound (codes "at://" ++ handle) doc.also_known_as
      (require_sound (any (λ a. bytes_eq a (codes "at://" ++ handle)) doc.also_known_as) _ h)

map_lowercase_idem :
    (s : Bytes) → map to_ascii_lowercase (map to_ascii_lowercase s) ≡ map to_ascii_lowercase s
map_lowercase_idem [] = refl
map_lowercase_idem (c ∷ s) = ap₂ (λ x xs. x ∷ xs) (to_ascii_lowercase_idem c) (map_lowercase_idem s)

-- A handle that is accepted is in lower case and has a dot.
pub normalize_handle_sound :
    (raw handle : Bytes)
    → normalize_handle raw ≡ ok handle
    → (map to_ascii_lowercase handle ≡ handle) × (has_byte b'.' handle ≡ true)
unfolding normalize_handle
normalize_handle_sound raw handle h =
    let low = map to_ascii_lowercase (trim_start_matches b'@' (trim raw)) in
    let same : low ≡ handle = ground (arith, h) in
    let dot : has_byte b'.' low ≡ true = ground (arith, h) in
    (
      ap (map to_ascii_lowercase) (sym same) ∙ (map_lowercase_idem _ ∙ same),
      ap (has_byte b'.') (sym same) ∙ dot,
    )

module _ (w : Web) where
  fetch_auth_server_metadata_sound :
      (url : Bytes) {meta : AuthServerMetadata}
      → fetch_auth_server_metadata w url ≡ ok meta
      → trim_end_matches b'/' meta.issuer ≡ trim_end_matches b'/' url
  unfolding fetch_auth_server_metadata
  fetch_auth_server_metadata_sound url {meta} h =
      let (m, (got, h1)) = Result->>= (get_decoded w auth_meta_fetch w.auth_metadata _) _ h in
      let (u, (same, h2)) =
        Result->>=
          (require (bytes_eq (trim_end_matches b'/' m.issuer) (trim_end_matches b'/' url)) _) _
          h1 in
      let e : m ≡ meta = ground (arith, h2) in
      ap (λ (x : AuthServerMetadata). trim_end_matches b'/' x.issuer) (sym e)
      ∙ (bytes_eq_iff (trim_end_matches b'/' m.issuer) (trim_end_matches b'/' url)).0
          (require_sound _ _ same)

  fetch_did_document_valid :
      (did : Bytes) {doc : DidDocument}
      → fetch_did_document w did ≡ ok doc
      → is_valid_did did ≡ true
  unfolding fetch_did_document
  fetch_did_document_valid did {doc} h = elim (Bool-cases (is_valid_did did)) [
    | inl v ↦ v
    | inr v ↦ absurd (ground (arith, v, h))
  ]

  -- Where a login resolves, the handle is in lower case with a dot, its DID is well formed, the document
  -- that the DID leads to names the handle among its other names, and the authorization server says
  -- that it is the issuer at the address where it was found.
  pub resolve_login_sound :
      (raw : Bytes) (r : Resolved w)
      → resolve_login w raw ≡ ok r
      → (map to_ascii_lowercase r.handle ≡ r.handle)
        × ((has_byte b'.' r.handle ≡ true)
            × ((is_valid_did r.did ≡ true)
                × ((fetch_did_document w r.did ≡ ok r.document)
                    × (((i : ℕ) × (get_elem? r.document.also_known_as i
                            ≡ some (codes "at://" ++ r.handle)))
                        × (trim_end_matches b'/' r.auth_meta.issuer
                            ≡ trim_end_matches b'/' r.auth_server)))))
  unfolding resolve_login
  resolve_login_sound raw r h =
      let (handle, (n, h1)) = Result->>= (normalize_handle raw) _ h in
      let (did, (d, h2)) = Result->>= (resolve_handle_to_did w handle) _ h1 in
      let (doc, (f, h3)) = Result->>= (fetch_did_document w did) _ h2 in
      let (u, (c, h4)) = Result->>= (verify_handle_claim handle doc) _ h3 in
      let (pds, (x, h5)) = Result->>= (extract_pds_url doc) _ h4 in
      let (server, (y, h6)) = Result->>= (fetch_pds_metadata w pds) _ h5 in
      let (meta, (z, h7)) = Result->>= (fetch_auth_server_metadata w server) _ h6 in
      let found : Resolved w = record {
        handle = handle;
        did = did;
        document = doc;
        auth_server = server;
        auth_meta = meta;
      } in
      let e : found ≡ r = ground (arith, h7) in
      let (low, dot) = normalize_handle_sound raw handle n in
      subst
        (λ (v : Resolved w).
          (map to_ascii_lowercase v.handle ≡ v.handle)
          × ((has_byte b'.' v.handle ≡ true)
              × ((is_valid_did v.did ≡ true)
                  × ((fetch_did_document w v.did ≡ ok v.document)
                      × (((i : ℕ) × (get_elem? v.document.also_known_as i
                              ≡ some (codes "at://" ++ v.handle)))
                          × (trim_end_matches b'/' v.auth_meta.issuer
                              ≡ trim_end_matches b'/' v.auth_server))))))
        e
        (
          low,
          (
            dot,
            (
              fetch_did_document_valid did f,
              (
                f,
                (verify_handle_claim_sound handle doc c, fetch_auth_server_metadata_sound server z),
              ),
            ),
          ),
        )
