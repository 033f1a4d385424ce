-- ===== src/Relaye/Resolve.antt =====
-- The resolution of a handle in crates/relaye/src/oauth_atproto.rs: from the handle to its DID, to the
-- DID's document, to the server of its data, to the authorization server. The HTTP client and the JSON
-- decoders are not part of the repository.
pub mod Claimed
use laye.Base.{
  ℕ, ◌∷◌, [], ◌++◌, List, Bytes, Bool, true, false, not, ◌&&◌, ◌||◌, Option, none, some, codes, map,
  any, length, is_empty, is_some, take, starts_with, strip_prefix, split_once, find_sub,
  to_ascii_lowercase, bytes_eq, leb, ltb, ◌==◌, if◌then◌else◌, Result, ok, err, ok_or,
}
use laye.Base.Trim.{trim, trim_start_matches, trim_end_matches}
use laye.Base.Try.{◌>>=◌, ◌>>◌, map_err, require}

pub data ResolveError : Type 0 where
  bad_handle : Bytes → ResolveError
  handle_not_resolved : Bytes → Bytes → ResolveError
  bad_did did_doc_fetch : Bytes → ResolveError
  handle_not_claimed_by_did : Bytes → Bytes → ResolveError
  no_pds_service : ResolveError
  pds_meta_fetch : Bytes → ResolveError
  no_auth_server : ResolveError
  auth_meta_fetch : Bytes → ResolveError
  issuer_mismatch : Bytes → Bytes → ResolveError
  http : Bytes → ResolveError

pub record DidService : Type 0 where
  pub id : Bytes
  pub type_ : Bytes
  pub service_endpoint : Bytes

pub record DidDocument : Type 0 where
  pub id : Bytes
  pub also_known_as : List Bytes
  pub service : List DidService

pub record AuthServerMetadata : Type 0 where
  pub issuer : Bytes
  pub authorization_endpoint : Bytes
  pub token_endpoint : Bytes
  pub pushed_authorization_request_endpoint : Bytes

-- `contains(c)`.
unfoldable pub has_byte : ℕ → Bytes → Bool
has_byte c s = any (λ d. d == c) s

unfoldable pub normalize_handle : Bytes → Result ResolveError Bytes
unfolding has_byte
normalize_handle raw =
    let trimmed = map to_ascii_lowercase (trim_start_matches b'@' (trim raw)) in
    if is_empty trimmed || not (has_byte b'.' trimmed) then err (bad_handle raw) else ok trimmed

unfoldable pub is_valid_did : Bytes → Bool
is_valid_did s =
    (starts_with (codes "did:plc:") s && ltb 8 (length s))
    || (starts_with (codes "did:web:") s && ltb 8 (length s))

-- `rest.replace(':', "/")`.
unfoldable pub colons_to_slashes : Bytes → Bytes
colons_to_slashes s = map (λ c. if c == b':' then b'/' else c) s

-- Where the document of a DID lies.
unfoldable pub did_document_url : Bytes → Option Bytes
unfolding colons_to_slashes
did_document_url did = elim (strip_prefix (codes "did:plc:") did) [
  | some rest ↦ some (codes "https://plc.directory/did:plc:" ++ rest)
  | none ↦ elim (strip_prefix (codes "did:web:") did) [
    | none ↦ none
    | some hostname ↦ elim (split_once b':' hostname) [
      | none ↦ some (codes "https://" ++ (hostname ++ codes "/.well-known/did.json"))
      | some (h, rest) ↦
          some (
            codes "https://" ++ (h ++ (codes "/" ++ (colons_to_slashes rest ++ codes "/did.json"))))
    ]
  ]
]

unfoldable pub verify_handle_claim : Bytes → DidDocument → Result ResolveError (Unit {0})
verify_handle_claim handle doc =
    if any (λ a. bytes_eq a (codes "at://" ++ handle)) doc.also_known_as
    then ok tt
    else err (handle_not_claimed_by_did doc.id handle)

unfoldable pub find_pds : List DidService → Option Bytes
find_pds [] = none
find_pds (s ∷ ss) =
    let rest = find_pds ss in
    if bytes_eq s.type_ (codes "AtprotoPersonalDataServer")
    then some (trim_end_matches b'/' s.service_endpoint)
    else rest

unfoldable pub extract_pds_url : DidDocument → Result ResolveError Bytes
unfolding find_pds
extract_pds_url doc = ok_or (find_pds doc.service) no_pds_service

-- The answer to a GET: its status and its body; an error is its printed text.
pub record Answer : Type 0 where
  pub status : ℕ
  pub body : Result Bytes Bytes

-- The HTTP client, with the printer of its status codes, and `serde_json` at the types that are read.
-- `dns_data` is what the answers of a DNS query hold, where there is an array of answers.
pub record Web : Type 0 where
  pub client : Result Bytes (Unit {0})
  pub get : Bytes → Result Bytes Answer
  pub get_query : Bytes → List (Bytes × Bytes) → Result Bytes Answer
  pub print_status : ℕ → Bytes
  pub dns_data : Bytes → Result Bytes (Option (List Bytes))
  pub did_document : Bytes → Result Bytes DidDocument
  pub authorization_servers : Bytes → Result Bytes (List Bytes)
  pub auth_metadata : Bytes → Result Bytes AuthServerMetadata

abbrev pub is_success : ℕ → Bool
is_success status = leb 200 status && ltb status 300

-- The first answer that holds a DID behind `did=`.
unfoldable pub first_did : List Bytes → Option Bytes
first_did [] = none
first_did (d ∷ ds) =
    let rest = first_did ds in
    elim (strip_prefix (codes "did=") (trim_end_matches b'"' (trim_start_matches b'"' (trim d)))) [
      | none ↦ rest
      | some did ↦ if is_valid_did did then some did else rest
    ]

abbrev pub head : List Bytes → Option Bytes
head [] = none
head (x ∷ xs) = some x

module _ (w : Web) where
  -- A GET of a text, whose failures are wrapped by `fetch`; `decode` reads the text.
  unfoldable pub get_decoded :
      {A : Type 0}
      → (Bytes → ResolveError)
      → (Bytes → Result Bytes A)
      → Bytes
      → Result ResolveError A
  get_decoded fetch decode url = do
    client ← map_err http w.client
    answer ← map_err (λ e. fetch (codes "get " ++ (url ++ (codes ": " ++ e)))) (w.get url)
    success ←
        require (is_success answer.status)
          (fetch (url ++ (codes " http " ++ w.print_status answer.status)))
    text ← map_err (λ e. fetch (codes "json " ++ (url ++ (codes ": " ++ e)))) answer.body
    map_err (λ e. fetch (codes "json " ++ (url ++ (codes ": " ++ e)))) (decode text)

  -- The errors of the two lookups are texts, and so is what the client fails with.
  unfoldable pub resolve_handle_via_doh : Bytes → Result Bytes Bytes
  unfolding first_did
  resolve_handle_via_doh handle = do
    client ← map_err (λ e. codes "HTTP client: " ++ e) w.client
    answer ←
        map_err (λ e. codes "doh get: " ++ e)
          (w.get_query (codes "https://cloudflare-dns.com/dns-query")
            ((codes "name", codes "_atproto." ++ handle) ∷ (codes "type", codes "TXT") ∷ []))
    success ← require (is_success answer.status) (codes "doh http " ++ w.print_status answer.status)
    text ← map_err (λ e. codes "doh json: " ++ e) answer.body
    answers ← map_err (λ e. codes "doh json: " ++ e) (w.dns_data text)
    datas ← ok_or answers (codes "doh no Answer array")
    ok_or (first_did datas) (codes "doh no did= TXT entry")

  -- The message shows the first 32 bytes of a text that is no DID. Where byte 32 is not the start of a
  -- character, the source's slice panics there; the model cuts the bytes.
  unfoldable pub resolve_handle_via_well_known : Bytes → Result Bytes Bytes
  resolve_handle_via_well_known handle = do
    client ← map_err (λ e. codes "HTTP client: " ++ e) w.client
    answer ←
        map_err (λ e. codes "well-known get: " ++ e)
          (w.get (codes "https://" ++ (handle ++ codes "/.well-known/atproto-did")))
    success ←
        require (is_success answer.status)
          (codes "well-known http " ++ w.print_status answer.status)
    text ← map_err (λ e. codes "well-known body: " ++ e) answer.body
    if is_valid_did (trim text)
        then ok (trim text)
        else err (codes "well-known body not a did: " ++ take 32 (trim text))

  unfoldable pub resolve_handle_to_did : Bytes → Result ResolveError Bytes
  unfolding resolve_handle_via_doh resolve_handle_via_well_known
  resolve_handle_to_did raw = do
    handle ← normalize_handle raw
    elim (resolve_handle_via_doh handle) [
      | ok did ↦ ok did
      | err dns ↦ elim (resolve_handle_via_well_known handle) [
        | ok did ↦ ok did
        | err https ↦ err (handle_not_resolved dns https)
      ]
    ]

  unfoldable pub fetch_did_document : Bytes → Result ResolveError DidDocument
  unfolding get_decoded
  fetch_did_document did =
      if is_valid_did did
      then elim (did_document_url did) [
        | none ↦ err (bad_did did)
        | some url ↦ get_decoded did_doc_fetch w.did_document url
      ]
      else err (bad_did did)

  unfoldable pub fetch_pds_metadata : Bytes → Result ResolveError Bytes
  unfolding get_decoded
  fetch_pds_metadata pds_url = do
    servers ←
        get_decoded pds_meta_fetch w.authorization_servers
          (pds_url ++ codes "/.well-known/oauth-protected-resource")
    ok_or (head servers) no_auth_server

  unfoldable pub fetch_auth_server_metadata : Bytes → Result ResolveError AuthServerMetadata
  unfolding get_decoded
  fetch_auth_server_metadata url = do
    meta ←
        get_decoded auth_meta_fetch w.auth_metadata
          (trim_end_matches b'/' url ++ codes "/.well-known/oauth-authorization-server")
    same_issuer ←
        require (bytes_eq (trim_end_matches b'/' meta.issuer) (trim_end_matches b'/' url))
          (issuer_mismatch (trim_end_matches b'/' url) meta.issuer)
    ok meta

  -- What `handle_start` does before it asks for an authorization: the normalized handle, the DID, and
  -- the metadata of the authorization server.
  pub record Resolved : Type 0 where
    pub handle : Bytes
    pub did : Bytes
    pub document : DidDocument
    pub auth_server : Bytes
    pub auth_meta : AuthServerMetadata

  unfoldable pub resolve_login : Bytes → Result ResolveError Resolved
  unfolding resolve_handle_to_did fetch_did_document fetch_pds_metadata fetch_auth_server_metadata
  resolve_login raw = do
    handle ← normalize_handle raw
    did ← resolve_handle_to_did handle
    doc ← fetch_did_document did
    claimed ← verify_handle_claim handle doc
    pds ← extract_pds_url doc
    auth_server ← fetch_pds_metadata pds
    auth_meta ← fetch_auth_server_metadata auth_server
    ok (record {
      handle = handle;
      did = did;
      document = doc;
      auth_server = auth_server;
      auth_meta = auth_meta;
    })
