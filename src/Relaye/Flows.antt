-- ===== src/Relaye/Flows.antt =====
-- `FlowCache` of crates/relaye/src/oauth_atproto.rs: the login flows that wait for their callback, and
-- the signed bindings that wait to be fetched. A time is in nanoseconds since some start.
pub mod Expiry
use laye.Base.{
  ℕ, ◌-◌, ◌∷◌, [], List, Bytes, Option, none, some, Result, ok, err, codes, map, ltb, if◌then◌else◌,
  ok_or,
}
use laye.Base.Maps.{Map, lookup, insert, remove}
use laye.Me.Claims.{SignedBinding}

-- `FLOW_TTL`, 600 seconds.
abbrev pub flow_ttl : ℕ
flow_ttl = 600000000000

-- The metadata, the key and the nonce of a flow only pass through the cache: they are a parameter.
module _ (Secrets : Type 0) where
  pub record FlowState : Type 0 where
    pub peer_pubkey_hex : Bytes
    pub handle : Bytes
    pub did : Bytes
    pub secrets : Secrets
    pub created_at : ℕ

  pub record ResultState : Type 0 where
    pub signed : SignedBinding
    pub created_at : ℕ

  pub record FlowCache : Type 0 where
    pub flows : Map FlowState
    pub results : Map ResultState

  abbrev pub empty_cache : FlowCache
  empty_cache = record { flows = []; results = [] }

  -- `retain`: `duration_since` is zero where the entry is younger than `now`.
  unfoldable pub retain_flows : ℕ → Map FlowState → Map FlowState
  retain_flows now [] = []
  retain_flows now ((k, f) ∷ m) =
      let rest = retain_flows now m in
      if ltb (now - f.created_at) flow_ttl then (k, f) ∷ rest else rest

  unfoldable pub retain_results : ℕ → Map ResultState → Map ResultState
  retain_results now [] = []
  retain_results now ((k, r) ∷ m) =
      let rest = retain_results now m in
      if ltb (now - r.created_at) flow_ttl then (k, r) ∷ rest else rest

  unfoldable pub gc : ℕ → FlowCache → FlowCache
  unfolding retain_flows retain_results
  gc now c = record { flows = retain_flows now c.flows; results = retain_results now c.results }

  unfoldable pub insert_flow : ℕ → Bytes → FlowState → FlowCache → FlowCache
  unfolding gc
  insert_flow now state flow c =
      let c' = gc now c in record c' { flows = insert state flow c'.flows }

  unfoldable pub take_flow : ℕ → Bytes → FlowCache → Option FlowState × FlowCache
  unfolding gc
  take_flow now state c =
      let c' = gc now c in (lookup state c'.flows, record c' { flows = remove state c'.flows })

  unfoldable pub insert_result : ℕ → Bytes → SignedBinding → FlowCache → FlowCache
  unfolding gc
  insert_result now state signed c =
      let c' = gc now c in
      record c' { results = insert state (record { signed = signed; created_at = now }) c'.results }

  unfoldable pub get_result : ℕ → Bytes → FlowCache → Option SignedBinding × FlowCache
  unfolding gc
  get_result now state c =
      let c' = gc now c in
      (elim (lookup state c'.results) [ none ↦ none | some r ↦ some r.signed ], c')
