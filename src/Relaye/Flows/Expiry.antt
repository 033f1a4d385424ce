-- ===== src/Relaye/Flows/Expiry.antt =====
-- What the cache of the login flows gives back, and how often.
use laye.Base.{
  ℕ, ◌≡◌, refl, ap, subst, ◌<◌, ◌-◌, ◌∷◌, [], Bytes, Option, none, some, arith, Bool-cases, inl,
  inr, ltb, bytes_eq, bytes_eq_refl,
}
use laye.Base.Maps.{Map, lookup, insert, remove, lookup-insert_self, lookup-remove}
use laye.Me.Claims.{SignedBinding}
use laye.Relaye.Flows.{
  FlowState, ResultState, FlowCache, flow_ttl, retain_flows, retain_results, gc, insert_flow,
  take_flow, insert_result, get_result,
}

module _ (Secrets : Type 0) where
  lookup-retain_flows :
      (now : ℕ) (k : Bytes) (m : Map (FlowState Secrets)) {f : FlowState Secrets}
      → lookup k m ≡ some f
      → now - f.created_at < flow_ttl
      → lookup k (retain_flows Secrets now m) ≡ some f
  unfolding lookup retain_flows
  lookup-retain_flows now k [] h y = h
  lookup-retain_flows now k ((j, g) ∷ m) {f} h y = elim (Bool-cases (bytes_eq j k)) [
    | inl e ↦ ground (arith, e)
    | inr e ↦ ground (arith, e, lookup-retain_flows now k m {f = f})
  ]

  retain_flows_young :
      (now : ℕ) (k : Bytes) (m : Map (FlowState Secrets)) {f : FlowState Secrets}
      → lookup k (retain_flows Secrets now m) ≡ some f
      → now - f.created_at < flow_ttl
  unfolding lookup retain_flows
  retain_flows_young now k [] h = absurd (ground (arith, h))
  retain_flows_young now k ((j, g) ∷ m) {f} h =
      elim (Bool-cases (ltb (now - g.created_at) flow_ttl)) [
        | inl t ↦ elim (Bool-cases (bytes_eq j k)) [
          | inl e ↦
              let same : g ≡ f = ground (arith, t, e, h) in
              subst (λ (x : FlowState Secrets). now - x.created_at < flow_ttl) same
                (ground (arith, t))
          | inr e ↦ retain_flows_young now k m {f = f} (ground (arith, t, e, h))
        ]
        | inr t ↦ retain_flows_young now k m {f = f} (ground (arith, t, h))
      ]

  pub retain_flows_absent :
      (now : ℕ) (k : Bytes) (m : Map (FlowState Secrets))
      → lookup k m ≡ none
      → lookup k (retain_flows Secrets now m) ≡ none
  unfolding lookup retain_flows
  retain_flows_absent now k [] h = refl
  retain_flows_absent now k ((j, g) ∷ m) h = ground (arith, retain_flows_absent now k m)

  lookup-retain_results :
      (now : ℕ) (k : Bytes) (m : Map (ResultState Secrets)) {r : ResultState Secrets}
      → lookup k m ≡ some r
      → now - r.created_at < flow_ttl
      → lookup k (retain_results Secrets now m) ≡ some r
  unfolding lookup retain_results
  lookup-retain_results now k [] h y = h
  lookup-retain_results now k ((j, g) ∷ m) {r} h y = elim (Bool-cases (bytes_eq j k)) [
    | inl e ↦ ground (arith, e)
    | inr e ↦ ground (arith, e, lookup-retain_results now k m {r = r})
  ]

  -- A flow that is taken before it is ten minutes old is the flow that was inserted, and it is taken
  -- once: every later callback with its state finds nothing.
  pub take_flow-insert_flow :
      (at now later : ℕ) (state : Bytes) (flow : FlowState Secrets) (c : FlowCache Secrets)
      → now - flow.created_at < flow_ttl
      → let (taken, c') = take_flow Secrets now state (insert_flow Secrets at state flow c) in
        (taken ≡ some flow) × ((take_flow Secrets later state c').0 ≡ none)
  unfolding take_flow insert_flow gc
  take_flow-insert_flow at now later state flow c y =
      let m = insert state flow (retain_flows Secrets at c.flows) in
      let there =
        lookup-retain_flows now state m {f = flow}
          (lookup-insert_self state flow (retain_flows Secrets at c.flows)) y in
      let left = retain_flows Secrets now m in
      (
        there,
        retain_flows_absent later state (remove state left)
            (ground (arith, lookup-remove state state left, bytes_eq_refl state)),
      )

  -- No flow is handed out that is ten minutes old or older.
  take_flow_young :
      (now : ℕ) (state : Bytes) (c : FlowCache Secrets) {f : FlowState Secrets}
      → (take_flow Secrets now state c).0 ≡ some f
      → now - f.created_at < flow_ttl
  unfolding take_flow gc
  take_flow_young now state c {f} h = retain_flows_young now state c.flows {f = f} h

  -- A signed binding stays readable for ten minutes: reading it leaves it for the next reader.
  pub get_result-insert_result :
      (at now later : ℕ) (state : Bytes) (signed : SignedBinding) (c : FlowCache Secrets)
      → now - at < flow_ttl
      → later - at < flow_ttl
      → let (first, c') = get_result Secrets now state (insert_result Secrets at state signed c) in
        (first ≡ some signed) × ((get_result Secrets later state c').0 ≡ some signed)
  unfolding get_result insert_result gc
  get_result-insert_result at now later state signed c y z =
      let r : ResultState Secrets = record { signed = signed; created_at = at } in
      let m = insert state r (retain_results Secrets at c.results) in
      let first =
        lookup-retain_results now state m {r = r}
          (lookup-insert_self state r (retain_results Secrets at c.results)) y in
      let second =
        lookup-retain_results later state (retain_results Secrets now m) {r = r} first z in
      let signed_of : Option (ResultState Secrets) → Option SignedBinding =
        λ o. elim o [ none ↦ none | some x ↦ some x.signed ] in
      (ap signed_of first, ap signed_of second)
