-- ===== src/Snapshot/Valid.antt =====
-- What the two loops of dp_snapshot_build let through.
use dpdk_high_speed_flow_rou.Prelude.{
  ℕ, ◌+◌, ◌≤◌, ◌≡◌, ◌⊎◌, inl, inr, refl, sym, ◌∙◌, true, false, List, [], ◌∷◌, none, some, arith,
  All, pos, is_neg, Bool-cases, if◌then◌else◌, none-ne_some,
}
use dpdk_high_speed_flow_rou.Rules.{
  Action, FlowRule, RouteRule, FlowKey, same_key, flow_key_of_rule, validate_action, flow_rejected,
  route_rejected, has_host_bits,
}
use dpdk_high_speed_flow_rou.Tables.{TableApi, TableLaws}
use dpdk_high_speed_flow_rou.Lookup.Reference.{find_flow}
use dpdk_high_speed_flow_rou.Snapshot.Loops.{add_flow, add_flows, add_route, add_routes}
use dpdk_high_speed_flow_rou.Snapshot.Flows.{same_key-eq, add_flow-ok, add_flows-cons}
use dpdk_high_speed_flow_rou.Snapshot.Routes.{add_routes-cons}

-- A rule that may be served.
pub record IsFlowRule (f : FlowRule) : Type 0 where
  pub protocol : (f.l4_proto ≡ 6) ⊎ (f.l4_proto ≡ 17)
  pub reserved : (f.reserved0 ≡ 0) × (f.reserved1 ≡ 0) × (f.reserved2 ≡ 0)
  pub action : validate_action f.action ≡ pos 0

pub record IsRouteRule (r : RouteRule) : Type 0 where
  pub least : 1 ≤ r.depth
  pub most : r.depth ≤ 32
  pub reserved : (r.reserved0 ≡ 0) × (r.reserved1 ≡ 0) × (r.reserved2 ≡ 0)
  pub network : has_host_bits r ≡ false
  pub action : validate_action r.action ≡ pos 0

-- No two flows have the same key.
abbrev pub Distinct : List FlowRule → Type 0
Distinct [] = Unit {0}
Distinct (f ∷ fs) = (find_flow fs (flow_key_of_rule f) ≡ none) × Distinct fs

validate_action-pos : (a : Action) → is_neg (validate_action a) ≡ false → validate_action a ≡ pos 0
unfolding validate_action
validate_action-pos a h = ground arith

module _ (api : TableApi) where
  add_flow-IsFlowRule :
      (f : FlowRule) (i : ℕ) (t : api.Hash) (actions : List Action)
      → is_neg (add_flow api f i (t, actions)).0 ≡ false
      → IsFlowRule f
  unfolding add_flow flow_rejected
  add_flow-IsFlowRule f i t actions h = record {
    protocol = ground arith;
    reserved = (ground arith, ground arith, ground arith);
    action = validate_action-pos f.action (ground arith);
  }

  add_route-IsRouteRule :
      (r : RouteRule) (slot : ℕ) (t : api.Lpm) (actions : List Action)
      → is_neg (add_route api r slot (t, actions)).0 ≡ false
      → IsRouteRule r
  unfolding add_route route_rejected
  add_route-IsRouteRule r slot t actions h = record {
    least = ground arith;
    most = ground arith;
    reserved = (ground arith, ground arith, ground arith);
    network = ground arith;
    action = validate_action-pos r.action (ground arith);
  }

module _ {api : TableApi} (laws : TableLaws api) where
  pub add_flows_valid :
      (fs : List FlowRule) (i : ℕ) (s : api.Hash × List Action)
      → is_neg (add_flows api fs i s).0 ≡ false
      → All IsFlowRule fs
  add_flows_valid [] i s h = tt
  add_flows_valid (f ∷ fs) i s h =
      let (good, step) = add_flows-cons laws f fs i s h in
      (
        add_flow-IsFlowRule api f i s.0 s.1 good,
        add_flows_valid fs (i + 1) (add_flow api f i s).1 (rw step at h),
      )

  pub add_routes_valid :
      (rs : List RouteRule) (slot : ℕ) (s : api.Lpm × List Action)
      → is_neg (add_routes api rs slot s).0 ≡ false
      → All IsRouteRule rs
  add_routes_valid [] slot s h = tt
  add_routes_valid (r ∷ rs) slot s h =
      let (good, step) = add_routes-cons laws r rs slot s h in
      (
        add_route-IsRouteRule api r slot s.0 s.1 good,
        add_routes_valid rs (slot + 1) (add_route api r slot s).1 (rw step at h),
      )

  -- What a key finds behind a round that stored another, or its own.
  pub lookup-add_flow :
      (f : FlowRule) (i : ℕ) (s : api.Hash × List Action) (k : FlowKey)
      → is_neg (add_flow api f i s).0 ≡ false
      → api.hash_lookup_data (add_flow api f i s).1.0 k
        ≡ (if same_key (flow_key_of_rule f) k then some i else api.hash_lookup_data s.0 k)
  lookup-add_flow f i s k good =
      let (absent, added, table, array) = add_flow-ok laws f i s.0 s.1 good in
      rw table (laws.hash_lookup-add s.0 (flow_key_of_rule f) i added k)

  -- A key that the table holds is not that of a flow that is still to be added.
  find_flow_held :
      (fs : List FlowRule) (i j : ℕ) (s : api.Hash × List Action) (k : FlowKey)
      → is_neg (add_flows api fs i s).0 ≡ false
      → api.hash_lookup_data s.0 k ≡ some j
      → find_flow fs k ≡ none
  find_flow_held [] i j s k h held = refl
  find_flow_held (f ∷ fs) i j s k h held =
      let (good, step) = add_flows-cons laws f fs i s h in
      let (absent, added, table, array) = add_flow-ok laws f i s.0 s.1 good in
      elim (Bool-cases (same_key (flow_key_of_rule f) k)) [
        | inl same ↦
            let stored : api.hash_lookup_data s.0 (flow_key_of_rule f) ≡ some j =
              rw (same_key-eq (flow_key_of_rule f) k same) held in
            absurd (none-ne_some (sym absent ∙ stored))
        | inr other ↦
            let rest =
              find_flow_held fs (i + 1) j (add_flow api f i s).1 k (rw step at h)
                (lookup-add_flow f i s k good ∙ rw other held) in
            rw other rest
      ]

  same_key_refl : (k : FlowKey) → same_key k k ≡ true
  same_key_refl k = ground arith

  pub add_flows-Distinct :
      (fs : List FlowRule) (i : ℕ) (s : api.Hash × List Action)
      → is_neg (add_flows api fs i s).0 ≡ false
      → Distinct fs
  add_flows-Distinct [] i s h = tt
  add_flows-Distinct (f ∷ fs) i s h =
      let (good, step) = add_flows-cons laws f fs i s h in
      let k = flow_key_of_rule f in
      (
        find_flow_held fs (i + 1) i (add_flow api f i s).1 k (rw step at h)
            (lookup-add_flow f i s k good ∙ rw (same_key_refl k) refl),
        add_flows-Distinct fs (i + 1) (add_flow api f i s).1 (rw step at h),
      )
