-- ===== src/Relaye/Routes/Served.antt =====
-- What a request to the relay reaches.
use laye.Base.{
  ◌≡◌, refl, ap, ◌∷◌, [], ◌++◌, List, Bytes, Option, none, some, codes, bytes_eq, arith,
  Option-cases, inl, inr, err,
}
use laye.Base.Maps.{lookup, insert}
use laye.Base.Utf8.{is_utf8-ascii}
use laye.Me.Keys.{Ed25519}
use laye.Relaye.Percent.{split_path_and_query, url_encode_form}
use laye.Relaye.Percent.Query.{IsText, split_path_and_query-url_encode_form}
use laye.Relaye.Http.{ParsedRequest}
use laye.Relaye.Sign.{Outside}
use laye.Relaye.Resolve.{Web}
use laye.Relaye.Dpop.{Poster, unknown_state}
use laye.Relaye.Flows.{take_flow}
use laye.Relaye.Callback.{
  FlowSecrets, ClientConfig, Calls, Cache, query_param, callback_params, finish_flow,
  handle_callback,
}
use laye.Relaye.Start.{Drawn, StartJson}
use laye.Relaye.Routes.{
  Clock, find_route, callback_route, redirect_or_error, flow_error_response, route,
}

abbrev pub callback_path : Bytes
callback_path = codes "/me/callback/atproto"

-- The parameters that an authorization server adds to the callback's address.
abbrev pub granted : Bytes → Bytes → List (Bytes × Bytes)
granted code state = (codes "code", code) ∷ (codes "state", state) ∷ []

-- The address at which the authorization server ends a login.
abbrev pub callback_address : Bytes → Bytes → Bytes
callback_address code state = callback_path ++ b'?' ∷ url_encode_form (granted code state)

code-IsText : IsText (codes "code")
code-IsText = (ground arith, is_utf8-ascii (codes "code") (ground arith))

state-IsText : IsText (codes "state")
state-IsText = (ground arith, is_utf8-ascii (codes "state") (ground arith))

address_read :
    (code state : Bytes)
    → IsText code
    → IsText state
    → split_path_and_query (callback_address code state) ≡ (callback_path, granted code state)
unfolding insert bytes_eq
address_read code state hc hs =
    split_path_and_query-url_encode_form callback_path (granted code state) (ground arith)
      ((code-IsText, hc), ((state-IsText, hs), tt))

is_callback : find_route (codes "GET") callback_path ≡ callback_route
unfolding find_route bytes_eq
is_callback = refl

module _ {World Key : Type 0} (e : Ed25519) (p : Poster World Key) (calls : Calls World e)
    (web : Web) (json : StartJson) (o : Outside) (write_error : Bytes → Option Bytes) where
  handle_callback-granted :
      (k : Clock) (code state : Bytes) (cfg : ClientConfig) (keypair : e.Keypair)
      (cache : Cache e p calls) (w : World)
      → let left = (take_flow (FlowSecrets Key) k.now state cache).1 in
        handle_callback e p calls k.now k.later k.secs (granted code state) cfg keypair cache w
        ≡ elim (take_flow (FlowSecrets Key) k.now state cache).0 [
          | none ↦ ((err unknown_state, left), w)
          | some flow ↦ finish_flow e p calls k.later k.secs cfg keypair code state flow left w
        ]
  unfolding handle_callback callback_params query_param lookup bytes_eq
  handle_callback-granted k code state cfg keypair cache w = refl

  -- A GET of the callback's address with a code and a state, percent-encoded, takes the flow that waits
  -- under that state and finishes it with that code; where none waits, the answer is the error of an
  -- unknown state.
  pub route-callback_address :
      (k : Clock) (page body code state : Bytes) (cfg : ClientConfig) (keypair : e.Keypair)
      (d : Drawn Key) (cache : Cache e p calls) (w : World)
      → IsText code
      → IsText state
      → let request : ParsedRequest = record {
        method = codes "GET";
        path = callback_address code state;
        body = body;
      } in
        let left = (take_flow (FlowSecrets Key) k.now state cache).1 in
        route e p calls web json o write_error k page request cfg keypair d cache w
        ≡ elim (take_flow (FlowSecrets Key) k.now state cache).0 [
          | none ↦ ((flow_error_response write_error unknown_state, left), w)
          | some flow ↦
              let done = finish_flow e p calls k.later k.secs cfg keypair code state flow left w in
              ((redirect_or_error write_error done.0.0, done.0.1), done.1)
        ]
  unfolding route redirect_or_error
  route-callback_address k page body code state cfg keypair d cache w hc hs =
      let path_read : (split_path_and_query (callback_address code state)).0 ≡ callback_path =
        ap (λ x. x.0) (address_read code state hc hs) in
      let query_read : (split_path_and_query (callback_address code state)).1 ≡ granted code state =
        ap (λ x. x.1) (address_read code state hc hs) in
      elim (Option-cases (take_flow (FlowSecrets Key) k.now state cache).0) [
        | inl t ↦
            rw
              (
                route,
                path_read,
                is_callback,
                query_read,
                handle_callback-granted k code state cfg keypair cache w,
                t,
              )
              refl
        | inr (flow, t) ↦
            rw
              (
                route,
                path_read,
                is_callback,
                query_read,
                handle_callback-granted k code state cfg keypair cache w,
                t,
              )
              refl
      ]
