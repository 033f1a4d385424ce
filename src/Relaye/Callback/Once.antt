-- ===== src/Relaye/Callback/Once.antt =====
-- What later requests find after a callback.
use laye.Base.{
  ℕ, ◌≡◌, ◌∙◌, refl, ap, sym, ◌<◌, ◌-◌, ◌++◌, Bytes, none, some, codes, bytes_eq_refl, arith,
  Result, ok, err, Option-cases, inl, inr,
}
use laye.Base.Maps.{Map, lookup, lookup-remove}
use laye.Base.Try.{◌>>=◌, map_err}
use laye.Me.Keys.{Ed25519, IsLawful}
use laye.Me.Claims.{SignedBinding}
use laye.Me.Wire.{binding_to_json}
use laye.Relaye.Flows.{FlowState, flow_ttl, gc, take_flow, insert_result, get_result}
use laye.Relaye.Flows.Expiry.{retain_flows_absent, get_result-insert_result}
use laye.Relaye.Dpop.{FlowError, Poster, unknown_state, http}
use laye.Relaye.Callback.{
  FlowSecrets, ClientConfig, Calls, Cache, query_param, store_link, finish_flow, callback_params,
  handle_callback, handle_result, bind_flow, exchange,
}
use laye.Relaye.Callback.Bound.{IsOfFlow, handle_callback_sound}

module _ {World Key : Type 0} (e : Ed25519) (p : Poster World Key) (calls : Calls World e) where
  taken_flow_absent :
      (now : ℕ) (state : Bytes) (cache : Cache e p calls)
      → lookup state (take_flow (FlowSecrets Key) now state cache).1.flows ≡ none
  unfolding take_flow
  taken_flow_absent now state cache =
      let left = (gc (FlowSecrets Key) now cache).flows in
      ground (arith, lookup-remove state state left, bytes_eq_refl state)

  store_link_absent :
      (now : ℕ) (state : Bytes) (cache : Cache e p calls) (r : Result FlowError SignedBinding)
      → lookup state cache.flows ≡ none
      → lookup state (store_link e p calls now state cache r).1.flows ≡ none
  unfolding store_link insert_result gc
  store_link_absent now state cache (err x) h = h
  store_link_absent now state cache (ok b) h =
      retain_flows_absent (FlowSecrets Key) now state cache.flows h

  handle_callback_absent :
      (now later secs : ℕ) (query : Map Bytes) (cfg : ClientConfig) (keypair : e.Keypair)
      (cache : Cache e p calls) (w : World) (code state : Bytes)
      → callback_params e p calls query ≡ ok (code, state)
      → lookup state (handle_callback e p calls now later secs query cfg keypair cache w).0.1.flows
        ≡ none
  unfolding handle_callback finish_flow
  handle_callback_absent now later secs query cfg keypair cache w code state q =
      elim (Option-cases (take_flow (FlowSecrets Key) now state cache).0) [
        | inl t ↦ rw (handle_callback, q, t) (taken_flow_absent now state cache)
        | inr (flow, t) ↦
            rw (handle_callback, q, t)
              (store_link_absent later state (take_flow (FlowSecrets Key) now state cache).1
                ((exchange e p calls cfg code flow.secrets w).0
                  >>= bind_flow e p calls secs keypair flow)
                (taken_flow_absent now state cache))
      ]

  -- Whatever a callback brought, a second one with the same query finds no flow: nothing is exchanged
  -- and nothing is signed, and the world is left as it was.
  pub handle_callback_once :
      (now later secs now2 later2 secs2 : ℕ) (query : Map Bytes) (cfg : ClientConfig)
      (keypair : e.Keypair) (cache : Cache e p calls) (w w2 : World) (code state : Bytes)
      → callback_params e p calls query ≡ ok (code, state)
      → let c1 = (handle_callback e p calls now later secs query cfg keypair cache w).0.1 in
        let again = handle_callback e p calls now2 later2 secs2 query cfg keypair c1 w2 in
        (again.0.0 ≡ err unknown_state) × (again.1 ≡ w2)
  unfolding handle_callback
  handle_callback_once now later secs now2 later2 secs2 query cfg keypair cache w w2 code state q =
      let c1 = (handle_callback e p calls now later secs query cfg keypair cache w).0.1 in
      second c1 (handle_callback_absent now later secs query cfg keypair cache w code state q)
    where
      second :
          (c : Cache e p calls)
          → lookup state c.flows ≡ none
          → ((handle_callback e p calls now2 later2 secs2 query cfg keypair c w2).0.0
              ≡ err unknown_state)
            × ((handle_callback e p calls now2 later2 secs2 query cfg keypair c w2).1 ≡ w2)
      second c h =
          let t : (take_flow (FlowSecrets Key) now2 state c).0 ≡ none =
            unfold take_flow gc in retain_flows_absent (FlowSecrets Key) now2 state c.flows h in
          rw (handle_callback, q, t) (refl, refl)

  -- After a callback that succeeds, the result is served for ten minutes to whoever asks with its state:
  -- what is written is a link of the taken flow that verifies.
  pub handle_result-handle_callback :
      (now later secs asked : ℕ) (query question : Map Bytes) (cfg : ClientConfig)
      (keypair : e.Keypair) (cache cache' : Cache e p calls) (w w' : World) {loc : Bytes}
      (code state : Bytes)
      → IsLawful e keypair
      → handle_callback e p calls now later secs query cfg keypair cache w ≡ ((ok loc, cache'), w')
      → callback_params e p calls query ≡ ok (code, state)
      → query_param (codes "state") question ≡ ok state
      → asked - later < flow_ttl
      → (flow : FlowState (FlowSecrets Key)) × (b : SignedBinding) × (((take_flow
              (FlowSecrets Key)
              now
              state
              cache).0
            ≡ some flow)
          × (IsOfFlow e p calls flow b
              × ((handle_result e p calls asked question cache').0
                  ≡ map_err
                      (λ x. http (codes "result json: " ++ x))
                      (calls.write_binding (binding_to_json b)))))
  unfolding handle_result
  handle_result-handle_callback now later secs asked query question cfg keypair cache cache' w w'
        code state l h q r y =
      let (code2, state2, flow, b, (q2, (t, (x, (about, (stored, loc_eq)))))) =
        handle_callback_sound e p calls now later secs query cfg keypair cache cache' w w' l h in
      let same : state2 ≡ state = ground (arith, q, q2) in
      let c1 = (take_flow (FlowSecrets Key) now state2 cache).1 in
      let fresh =
        (get_result-insert_result (FlowSecrets Key) later asked asked state2 b c1 y y).0 in
      let got : (get_result (FlowSecrets Key) asked state cache').0 ≡ some b =
        ap (λ k. (get_result (FlowSecrets Key) asked k cache').0) (sym same)
        ∙ (ap (λ (c : Cache e p calls). (get_result (FlowSecrets Key) asked state2 c).0)
              (sym stored)
            ∙ fresh) in
      (
        flow,
        b,
        (
          ap (λ k. (take_flow (FlowSecrets Key) now k cache).0) (sym same) ∙ t,
          (about, rw (handle_result, r, got) refl),
        ),
      )
