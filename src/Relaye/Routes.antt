-- ===== src/Relaye/Routes.antt =====
-- The routes and the responses of crates/relaye/src/status_page.rs, with the texts of the errors that
-- they print.
pub mod Served
use laye.Base.{
  ℕ, ◌∷◌, [], ◌++◌, List, Bytes, Bool, true, false, ◌&&◌, Option, none, some, codes, length, ◌==◌,
  if◌then◌else◌, bytes_eq, get_or_else, Result, ok, err,
}
use laye.Base.Maps.{Map}
use laye.Base.Decimal.{to_string}
use laye.Me.Keys.{Ed25519}
use laye.Relaye.Percent.{split_path_and_query}
use laye.Relaye.Http.{ParsedRequest}
use laye.Relaye.Sign.{Outside, handle_sign, error_message}
use laye.Relaye.Sign as Sign
use laye.Relaye.Resolve.{
  Web, ResolveError, bad_handle, handle_not_resolved, bad_did, did_doc_fetch,
  handle_not_claimed_by_did, no_pds_service, pds_meta_fetch, no_auth_server, auth_meta_fetch,
  issuer_mismatch,
}
use laye.Relaye.Resolve as Resolve
use laye.Relaye.Dpop.{
  Poster, FlowError, http_status, bad_request_json, bad_peer_pubkey, resolve, jwt, http,
  dpop_retry_exhausted, par, par_no_request_uri, token, token_missing, sub_mismatch, unknown_state,
  sign_failed,
}
use laye.Relaye.Callback.{ClientConfig, Calls, Cache, handle_callback, handle_result}
use laye.Relaye.Start.{Drawn, StartJson, handle_start}

unfoldable pub resolve_error_message : ResolveError → Bytes
resolve_error_message (bad_handle h) = codes "handle format rejected: " ++ h
resolve_error_message (handle_not_resolved dns https) =
    codes "handle DNS TXT + well-known both failed: dns=" ++ (dns ++ (codes " https=" ++ https))
resolve_error_message (bad_did d) = codes "did format rejected: " ++ d
resolve_error_message (did_doc_fetch e) = codes "did document fetch: " ++ e
resolve_error_message (handle_not_claimed_by_did did handle) =
    codes "did document does not claim this handle: did=" ++ (did ++ (codes " handle=" ++ handle))
resolve_error_message no_pds_service = codes "did document has no atproto PDS service"
resolve_error_message (pds_meta_fetch e) = codes "pds metadata fetch: " ++ e
resolve_error_message no_auth_server = codes "pds metadata has no authorization_servers entry"
resolve_error_message (auth_meta_fetch e) = codes "auth server metadata fetch: " ++ e
resolve_error_message (issuer_mismatch expected got) =
    codes "auth server issuer mismatch: expected=" ++ (expected ++ (codes " got=" ++ got))
resolve_error_message (Resolve.http e) = codes "HTTP client: " ++ e

unfoldable pub flow_error_message : FlowError → Bytes
unfolding resolve_error_message
flow_error_message (bad_request_json e) = codes "bad request json: " ++ e
flow_error_message bad_peer_pubkey = codes "bad peer_pubkey_hex"
flow_error_message (resolve e) = codes "resolve: " ++ resolve_error_message e
flow_error_message (jwt e) = codes "jwt: " ++ e
flow_error_message (http e) = codes "http: " ++ e
flow_error_message dpop_retry_exhausted = codes "dpop retry exhausted"
flow_error_message (par status body) =
    codes "PAR http " ++ (to_string status ++ (codes ": " ++ body))
flow_error_message (par_no_request_uri e) = codes "PAR response missing request_uri: " ++ e
flow_error_message (token status body) =
    codes "token http " ++ (to_string status ++ (codes ": " ++ body))
flow_error_message (token_missing e) = codes "token response missing field: " ++ e
flow_error_message (sub_mismatch expected got) =
    codes "sub mismatch: expected=" ++ (expected ++ (codes " got=" ++ got))
flow_error_message unknown_state = codes "unknown or expired state"
flow_error_message (sign_failed e) = codes "sign: " ++ e

unfoldable pub reason : ℕ → Bytes
reason status =
    if status == 200
    then codes "OK"
    else if status == 400
    then codes "Bad Request"
    else if status == 401
    then codes "Unauthorized"
    else if status == 404
    then codes "Not Found"
    else if status == 500
    then codes "Internal Server Error"
    else if status == 502
    then codes "Bad Gateway"
    else codes "Response"

unfoldable pub build_json_response : ℕ → Bytes → Bytes
unfolding reason
build_json_response status body =
    codes "HTTP/1.1 "
    ++ (to_string status
        ++ (codes " "
            ++ (reason status
                ++ (codes "\r\nContent-Type: application/json; charset=utf-8\r\nContent-Length: "
                    ++ (to_string (length body)
                        ++ (codes
                              "\r\nCache-Control: no-store\r\nAccess-Control-Allow-Origin: *\r\nAccess-Control-Allow-Methods: GET, POST, OPTIONS\r\nAccess-Control-Allow-Headers: Content-Type\r\nConnection: close\r\n\r\n"
                            ++ body))))))

unfoldable pub build_redirect_response : Bytes → Bytes
build_redirect_response location =
    let body =
      codes "<html><body>redirecting to <a href=\""
      ++ (location ++ (codes "\">" ++ (location ++ codes "</a></body></html>"))) in
    codes "HTTP/1.1 302 Found\r\nLocation: "
    ++ (location
        ++ (codes "\r\nContent-Type: text/html; charset=utf-8\r\nContent-Length: "
            ++ (to_string (length body)
                ++ (codes "\r\nCache-Control: no-store\r\nConnection: close\r\n\r\n" ++ body))))

unfoldable pub format_status_response : Bytes → Bytes
format_status_response body =
    codes "HTTP/1.1 200 OK\r\nContent-Type: text/html; charset=utf-8\r\nContent-Length: "
    ++ (to_string (length body)
        ++ (codes "\r\nCache-Control: max-age=60\r\nConnection: close\r\n\r\n" ++ body))

-- The cases of the `match` on method and path.
pub data Route : Type 0 where
  sign_route start_route callback_route result_route status_route : Route

unfoldable pub find_route : Bytes → Bytes → Route
find_route method path =
    if bytes_eq method (codes "POST") && bytes_eq path (codes "/me/sign/mastodon")
    then sign_route
    else if bytes_eq method (codes "POST") && bytes_eq path (codes "/me/oauth/atproto/start")
    then start_route
    else if bytes_eq method (codes "GET") && bytes_eq path (codes "/me/callback/atproto")
    then callback_route
    else if bytes_eq method (codes "GET") && bytes_eq path (codes "/me/sign/atproto/result")
    then result_route
    else status_route

-- `write_error` writes the JSON of an error's text.
unfoldable pub error_response : (Bytes → Option Bytes) → ℕ → Bytes → Bytes
unfolding build_json_response
error_response write_error status message =
    build_json_response status (get_or_else (write_error message) (codes "{}"))

unfoldable pub flow_error_response : (Bytes → Option Bytes) → FlowError → Bytes
unfolding error_response http_status flow_error_message
flow_error_response write_error x =
    error_response write_error (http_status x) (flow_error_message x)

unfoldable pub json_or_error : (Bytes → Option Bytes) → Result FlowError Bytes → Bytes
unfolding build_json_response flow_error_response
json_or_error write_error (ok json_bytes) = build_json_response 200 json_bytes
json_or_error write_error (err x) = flow_error_response write_error x

unfoldable pub redirect_or_error : (Bytes → Option Bytes) → Result FlowError Bytes → Bytes
unfolding build_redirect_response flow_error_response
redirect_or_error write_error (ok location) = build_redirect_response location
redirect_or_error write_error (err x) = flow_error_response write_error x

-- The instants at which the cache is asked, and the clock of the signed links, in seconds.
pub record Clock : Type 0 where
  pub now : ℕ
  pub later : ℕ
  pub secs : ℕ

module _ {World Key : Type 0} (e : Ed25519) (p : Poster World Key) (calls : Calls World e)
    (web : Web) (json : StartJson) (o : Outside) (write_error : Bytes → Option Bytes) where
  unfoldable pub handle_sign_route : ℕ → Bytes → e.Keypair → Bytes
  unfolding build_json_response error_response
  handle_sign_route secs body keypair =
      elim (handle_sign o e calls.print_signing secs body keypair) [
        | ok json_bytes ↦ build_json_response 200 json_bytes
        | err x ↦ error_response write_error (Sign.http_status x) (error_message x)
      ]

  -- `page` is the HTML of the status page.
  unfoldable pub route :
      Clock
      → Bytes
      → ParsedRequest
      → ClientConfig
      → e.Keypair
      → Drawn Key
      → Cache e p calls
      → World
      → (Bytes × Cache e p calls) × World
  unfolding find_route json_or_error redirect_or_error handle_sign_route format_status_response
  route k page request cfg keypair d cache w =
      let (path, query) = split_path_and_query request.path in
      elim (find_route request.method path) [
        | sign_route ↦ ((handle_sign_route k.secs request.body keypair, cache), w)
        | start_route ↦
            let ((r, c), w') = handle_start e p calls web json k.now request.body cfg d cache w in
            ((json_or_error write_error r, c), w')
        | callback_route ↦
            let ((r, c), w') =
              handle_callback e p calls k.now k.later k.secs query cfg keypair cache w in
            ((redirect_or_error write_error r, c), w')
        | result_route ↦
            let (r, c) = handle_result e p calls k.now query cache in
            ((json_or_error write_error r, c), w)
        | status_route ↦ ((format_status_response page, cache), w)
      ]
