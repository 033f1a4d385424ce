-- ===== src/Tests/LoginRuns.antt =====
-- The theorems on the login flows at concrete inputs.
use laye.Base.{
  strip_prefix, starts_with, find_sub, ◌⊎◌, ℕ, ◌≡◌, refl, [], ◌++◌, Bytes, true, none, some, codes,
  arith, ok, err, map, get_elem?, bytes_eq, to_ascii_lowercase,
}
use laye.Base.Maps.{lookup}
use laye.Base.Trim.{
  trim, trim_start, trim_reversed, reverse_onto, trim_start_matches, trim_end_matches,
}
use laye.Base.Try.{map_err}
use laye.Me.Hex.{hex_lower}
use laye.Me.Claims.{SignedBinding}
use laye.Me.Wire.{binding_to_json}
use laye.Relaye.Flows.{FlowState, empty_cache, flow_ttl, take_flow, insert_flow, insert_result}
use laye.Relaye.Flows as Flows
use laye.Relaye.Resolve.{
  Web, Resolved, AuthServerMetadata, DidDocument, has_byte, is_valid_did, fetch_did_document,
  resolve_login,
}
use laye.Relaye.Resolve as Resolve
use laye.Relaye.Resolve.Claimed.{resolve_login_sound}
use laye.Relaye.Dpop.{
  DpopResponse, FlowError, Poster, nonce_challenge, post_round, post_form_with_dpop, http,
  unknown_state,
}
use laye.Relaye.Dpop as Dpop
use laye.Relaye.Dpop.Retry.{IsChallenge, post_form_with_dpop_lem}
use laye.Relaye.Callback.{
  FlowSecrets, ClientConfig, Calls, Cache, query_param, callback_params, exchange, redirect_target,
  finish_flow, handle_callback, handle_result,
}
use laye.Relaye.Callback as Callback
use laye.Relaye.Callback.Bound.{IsOfFlow, handle_callback_sound}
use laye.Relaye.Callback.Once.{handle_callback_once, handle_result-handle_callback}
use laye.Relaye.Start.{StartRequest, Drawn, StartJson, prepare, handle_start}
use laye.Relaye.Start as Start
use laye.Relaye.Routes.{flow_error_response, redirect_or_error, route}
use laye.Relaye.Routes.Served.{callback_address, route-callback_address}
use laye.Base.Utf8.{is_utf8-ascii}
use laye.Relaye.Start.Waiting.{handle_start_sound}
use laye.Tests.Doubles.{toy, toy-IsLawful}
use laye.Tests.LoginDoubles.{
  server, calls, web, login, form, config, flow, waiting, query, outside, drawn, json,
}

resolved : resolve_login web (codes " @A.b") ≡ ok login
unfolding resolve_login Resolve.normalize_handle has_byte Resolve.resolve_handle_to_did
    Resolve.resolve_handle_via_doh Resolve.first_did is_valid_did fetch_did_document
    Resolve.did_document_url Resolve.get_decoded Resolve.verify_handle_claim Resolve.extract_pds_url
    Resolve.find_pds Resolve.fetch_pds_metadata Resolve.fetch_auth_server_metadata trim trim_start
    trim_reversed reverse_onto trim_start_matches trim_end_matches bytes_eq to_ascii_lowercase
    strip_prefix starts_with
resolved = refl

resolve_login_sound_example :
    (map to_ascii_lowercase login.handle ≡ login.handle)
    × ((has_byte b'.' login.handle ≡ true)
        × ((is_valid_did login.did ≡ true)
            × ((fetch_did_document web login.did ≡ ok login.document)
                × (((i : ℕ) × (get_elem? login.document.also_known_as i
                        ≡ some (codes "at://" ++ login.handle)))
                    × (trim_end_matches b'/' login.auth_meta.issuer
                        ≡ trim_end_matches b'/' login.auth_server)))))
resolve_login_sound_example = resolve_login_sound web (codes " @A.b") login resolved

post_form_with_dpop_lem_example :
    ((¬ (
        (a : DpopResponse) × ((n : Bytes) × (((post_round server
                (codes "https://as/t")
                tt
                form
                none
                0).0
              ≡ ok a)
            × IsChallenge a n))))
      × (post_form_with_dpop server (codes "https://as/t") tt none form 0
          ≡ post_round server (codes "https://as/t") tt form none 0))
    ⊎ ((a : DpopResponse) × ((n : Bytes) × (((post_round server
                (codes "https://as/t")
                tt
                form
                none
                0).0
              ≡ ok a)
            × (IsChallenge a n
                × (post_form_with_dpop server (codes "https://as/t") tt none form 0
                    ≡ post_round server
                        (codes "https://as/t")
                        tt
                        form
                        (some n)
                        (post_round server (codes "https://as/t") tt form none 0).1)))))
post_form_with_dpop_lem_example =
    post_form_with_dpop_lem server (codes "https://as/t") tt none form 0

params : callback_params toy server calls query ≡ ok (codes "c", codes "s")
unfolding callback_params query_param bytes_eq lookup
params = refl

abbrev target : Bytes
target = redirect_target toy server calls (codes "s")

abbrev after : Cache toy server calls
after = (handle_callback toy server calls 9 10 11 query config tt waiting 0).0.1

called :
    handle_callback toy server calls 9 10 11 query config tt waiting 0 ≡ ((ok target, after), 2)
unfolding handle_callback callback_params query_param bytes_eq Callback.finish_flow exchange
    Callback.token_form Callback.token_subject Callback.bind_flow Callback.decode_peer_pubkey
    Callback.sign_link Callback.store_link post_form_with_dpop Dpop.post_loop post_round
    nonce_challenge Dpop.send Dpop.read_answer take_flow insert_result Flows.gc Flows.retain_flows
    Flows.retain_results lookup find_sub
called = refl

handle_callback_sound_example :
    (code : Bytes) × (state : Bytes) × (flow : FlowState (FlowSecrets Unit)) × (b : SignedBinding)
    × ((callback_params toy server calls query ≡ ok (code, state))
        × (((take_flow (FlowSecrets Unit) 9 state waiting).0 ≡ some flow)
            × (((exchange toy server calls config code flow.secrets 0).0 ≡ ok flow.did)
                × (IsOfFlow toy server calls flow b
                    × ((insert_result
                            (FlowSecrets Unit)
                            10
                            state
                            b
                            (take_flow (FlowSecrets Unit) 9 state waiting).1
                          ≡ after)
                        × (redirect_target toy server calls state ≡ target))))))
handle_callback_sound_example =
    handle_callback_sound toy server calls 9 10 11 query config tt waiting after 0 2 toy-IsLawful
      called

handle_callback_once_example :
    ((handle_callback toy server calls 19 20 21 query config tt after 2).0.0 ≡ err unknown_state)
    × ((handle_callback toy server calls 19 20 21 query config tt after 2).1 ≡ 2)
handle_callback_once_example =
    handle_callback_once toy server calls 9 10 11 19 20 21 query config tt waiting 0 2 (codes "c")
      (codes "s") params

asked_state : query_param (codes "state") query ≡ ok (codes "s")
unfolding query_param bytes_eq lookup
asked_state = refl

handle_result-handle_callback_example :
    (flow : FlowState (FlowSecrets Unit)) × (b : SignedBinding) × (((take_flow
          (FlowSecrets Unit)
          9
          (codes "s")
          waiting).0
        ≡ some flow)
      × (IsOfFlow toy server calls flow b
          × ((handle_result toy server calls 30 query after).0
              ≡ map_err
                  (λ x. http (codes "result json: " ++ x))
                  (calls.write_binding (binding_to_json b)))))
handle_result-handle_callback_example =
    handle_result-handle_callback toy server calls 9 10 11 30 query query config tt waiting after 0
      2 (codes "c") (codes "s") toy-IsLawful called params asked_state (omega arith)

abbrev started : Cache toy server calls
started =
    (handle_start toy server calls web json 5 (codes " @A.b") config drawn
      (empty_cache (FlowSecrets Unit)) 0).0.1

start_run :
    handle_start toy server calls web json 5
      (codes " @A.b")
      config
      drawn
      (empty_cache (FlowSecrets Unit))
      0
    ≡ ((ok (codes "r"), started), 2)
unfolding handle_start prepare Callback.decode_peer_pubkey Start.ask_authorization Start.par_form
    Start.read_par Start.stash post_form_with_dpop Dpop.post_loop post_round nonce_challenge
    Dpop.send Dpop.read_answer resolve_login Resolve.normalize_handle has_byte
    Resolve.resolve_handle_to_did Resolve.resolve_handle_via_doh Resolve.first_did is_valid_did
    fetch_did_document Resolve.did_document_url Resolve.get_decoded Resolve.verify_handle_claim
    Resolve.extract_pds_url Resolve.find_pds Resolve.fetch_pds_metadata
    Resolve.fetch_auth_server_metadata trim trim_start trim_reversed reverse_onto trim_start_matches
    trim_end_matches bytes_eq to_ascii_lowercase strip_prefix starts_with find_sub
start_run = refl

handle_start_sound_example :
    (req : StartRequest) × (peer : Bytes) × (r : Resolved web) × (state : Bytes) × (flow : FlowState
      (FlowSecrets Unit))
    × (((json.read_start (codes " @A.b") ≡ ok req)
          × ((Callback.decode_peer_pubkey toy server calls req.peer_pubkey_hex ≡ ok peer)
              × ((Resolve.normalize_handle req.handle ≡ ok flow.handle)
                  × (prepare toy server calls web json (codes " @A.b") drawn
                      ≡ ok (peer, r, state)))))
        × (((take_flow (FlowSecrets Unit) 9 state started).0 ≡ some flow)
            × ((flow.peer_pubkey_hex ≡ hex_lower peer)
                × ((flow.did ≡ r.did)
                    × ((fetch_did_document web flow.did ≡ ok r.document)
                        × ((i : ℕ) × (get_elem? r.document.also_known_as i
                              ≡ some (codes "at://" ++ flow.handle))))))))
handle_start_sound_example =
    handle_start_sound toy server calls web json 5 9 (codes " @A.b") config drawn
      (empty_cache (FlowSecrets Unit)) started 0 2 (omega arith) start_run

route-callback_address_example :
    route toy server calls web json outside
      (λ m. some m)
      (record { now = 9; later = 10; secs = 11 })
      (codes "page")
      (record {
        method = codes "GET";
        path = callback_address (codes "c&d") (codes "s");
        body = [];
      })
      config
      tt
      drawn
      waiting
      0
    ≡ elim (take_flow (FlowSecrets Unit) 9 (codes "s") waiting).0 [
      | none ↦ (
        (
          flow_error_response (λ m. some m) unknown_state,
          (take_flow (FlowSecrets Unit) 9 (codes "s") waiting).1,
        ),
        0,
      )
      | some flow ↦
          let done =
            finish_flow toy server calls 10 11 config tt
              (codes "c&d")
              (codes "s")
              flow
              (take_flow (FlowSecrets Unit) 9 (codes "s") waiting).1
              0 in
          ((redirect_or_error (λ m. some m) done.0.0, done.0.1), done.1)
    ]
route-callback_address_example =
    route-callback_address toy server calls web json outside (λ m. some m)
      (record { now = 9; later = 10; secs = 11 }) (codes "page") [] (codes "c&d") (codes "s") config
      tt drawn waiting 0 (ground arith, is_utf8-ascii (codes "c&d") (ground arith))
      (ground arith, is_utf8-ascii (codes "s") (ground arith))
