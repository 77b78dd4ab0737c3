-- ===== src/Snapshot/Accepts.antt =====
-- The two loops of dp_snapshot_build on rules that pass every check, over tables that take their entries.
use dpdk_high_speed_flow_rou.Prelude.{
  ℕ, ◌+◌, ◌^◌, ◌≤◌, ◌<◌, ◌≡◌, refl, sym, ◌∙◌, false, List, [], ◌∷◌, none, arith, All, length,
  is_neg, Bool-cases, inl, inr, none-ne_some,
}
use dpdk_high_speed_flow_rou.Rules.{
  Action, FlowRule, RouteRule, FlowKey, same_key, flow_key_of_rule, flow_rejected, route_rejected,
}
use dpdk_high_speed_flow_rou.Rules.Mask.{has_host_bits_iff}
use dpdk_high_speed_flow_rou.Tables.{TableApi, TableLaws, Prefix, IsPrefix, holds_prefix}
use dpdk_high_speed_flow_rou.Lookup.Reference.{find_flow}
use dpdk_high_speed_flow_rou.Snapshot.Loops.{add_flow, add_flows, add_route, add_routes}
use dpdk_high_speed_flow_rou.Snapshot.Routes.{add_route-ok, add_route-rules}
use dpdk_high_speed_flow_rou.Snapshot.Flows.{add_flow-ok}
use dpdk_high_speed_flow_rou.Snapshot.Taken.{TakesFlows, TakesRoutes}
use dpdk_high_speed_flow_rou.Snapshot.Valid.{IsFlowRule, IsRouteRule, Distinct, lookup-add_flow}
use dpdk_high_speed_flow_rou.Snapshot.Unique.{lists_prefix, AreUnique, holds_prefix-append}

module _ {api : TableApi} (laws : TableLaws api) where
  abbrev pub Free : api.Hash → List FlowRule → Type 0
  Free t fs = All (λ f. api.hash_lookup_data t (flow_key_of_rule f) ≡ none) fs

  add_flow_accepts :
      (f : FlowRule) (i : ℕ) (t : api.Hash) (actions : List Action)
      → IsFlowRule f
      → api.hash_lookup_data t (flow_key_of_rule f) ≡ none
      → is_neg (api.hash_add_key_data t (flow_key_of_rule f) i).0 ≡ false
      → is_neg (add_flow api f i (t, actions)).0 ≡ false
  unfolding add_flow flow_rejected
  add_flow_accepts f i t actions v free takes =
      ground (arith, v.protocol, v.reserved, v.action, free, takes)

  same_key_sym : (k j : FlowKey) → same_key k j ≡ false → same_key j k ≡ false
  same_key_sym k j h = ground arith

  -- Flows behind one of another key stay free.
  Free-add_flow :
      (f : FlowRule) (fs : List FlowRule) (i : ℕ) (s : api.Hash × List Action)
      → is_neg (add_flow api f i s).0 ≡ false
      → find_flow fs (flow_key_of_rule f) ≡ none
      → Free s.0 fs
      → Free (add_flow api f i s).1.0 fs
  Free-add_flow f [] i s good other free = tt
  Free-add_flow f (g ∷ fs) i s good other free =
      let stored = lookup-add_flow laws f i s (flow_key_of_rule g) good in
      elim (Bool-cases (same_key (flow_key_of_rule g) (flow_key_of_rule f))) [
        | inl same ↦ absurd (none-ne_some (sym (rw same at other)))
        | inr apart ↦ (
          stored ∙ rw (same_key_sym (flow_key_of_rule g) (flow_key_of_rule f) apart) (free.0),
          Free-add_flow f fs i s good (rw apart at other) free.1,
        )
      ]

  pub add_flows_accepts :
      (fs : List FlowRule) (i : ℕ) (s : api.Hash × List Action)
      → All IsFlowRule fs
      → Distinct fs
      → Free s.0 fs
      → TakesFlows api s.0 i fs
      → is_neg (add_flows api fs i s).0 ≡ false
  unfolding add_flows
  add_flows_accepts [] i s v distinct free takes = refl
  add_flows_accepts (f ∷ fs) i s v distinct free takes =
      let good = add_flow_accepts f i s.0 s.1 v.0 free.0 takes.0 in
      let (absent, added, table, array) = add_flow-ok laws f i s.0 s.1 good in
      let next : TakesFlows api (add_flow api f i s).1.0 (i + 1) fs = rw table takes.1 in
      let rest =
        add_flows_accepts fs (i + 1) (add_flow api f i s).1 v.1 distinct.1
          (Free-add_flow f fs i s good distinct.0 free.1) next in
      rw good rest

  -- No route's prefix is in the table.
  abbrev pub Vacant : api.Lpm → List RouteRule → Type 0
  Vacant t rs = All (λ r. holds_prefix (laws.rules t) r.prefix r.depth ≡ false) rs

  add_route_accepts :
      (r : RouteRule) (slot : ℕ) (t : api.Lpm) (actions : List Action)
      → IsRouteRule r
      → r.prefix < 2 ^ 32
      → holds_prefix (laws.rules t) r.prefix r.depth ≡ false
      → is_neg (api.lpm_is_rule_present t r.prefix r.depth) ≡ false
      → is_neg (api.lpm_add t r.prefix r.depth slot).0 ≡ false
      → is_neg (add_route api r slot (t, actions)).0 ≡ false
  unfolding add_route route_rejected
  add_route_accepts r slot t actions v word free asked added =
      let at : IsPrefix r.prefix r.depth =
        (v.least, v.most, word, (has_host_bits_iff r word v.most).0 v.network) in
      ground (
        arith,
        v.least,
        v.most,
        v.reserved,
        v.network,
        v.action,
        asked,
        laws.lpm_present t r.prefix r.depth at asked,
        added,
      )

  Vacant-add_route :
      (r : RouteRule) (rs : List RouteRule) (slot : ℕ) (s : api.Lpm × List Action)
      → is_neg (add_route api r slot s).0 ≡ false
      → r.prefix < 2 ^ 32
      → slot < 2 ^ 24
      → lists_prefix rs r.prefix r.depth ≡ false
      → Vacant s.0 rs
      → Vacant (add_route api r slot s).1.0 rs
  Vacant-add_route r [] slot s good word hop other free = tt
  Vacant-add_route r (q ∷ rs) slot s good word hop other free =
      let table = add_route-rules laws r slot s.0 s.1 good word hop in
      let added : List Prefix =
        record { prefix = r.prefix; depth = r.depth; next_hop = slot } ∷ [] in
      (
        rw (table, holds_prefix-append (laws.rules s.0) added q.prefix q.depth, free.0)
            (ground arith),
        Vacant-add_route r rs slot s good word hop (ground arith) free.1,
      )

  pub add_routes_accepts :
      (rs : List RouteRule) (slot : ℕ) (s : api.Lpm × List Action)
      → All IsRouteRule rs
      → AreUnique rs
      → All (λ r. r.prefix < 2 ^ 32) rs
      → slot + length rs ≤ 2 ^ 24
      → Vacant s.0 rs
      → TakesRoutes api s.0 slot rs
      → is_neg (add_routes api rs slot s).0 ≡ false
  unfolding add_routes
  add_routes_accepts [] slot s v unique words few free takes = refl
  add_routes_accepts (r ∷ rs) slot s v unique words few free takes =
      let good = add_route_accepts r slot s.0 s.1 v.0 words.0 free.0 takes.0 takes.1 in
      let ok = add_route-ok laws r slot s.0 s.1 good in
      let next : TakesRoutes api (add_route api r slot s).1.0 (slot + 1) rs = rw ok.5 takes.2 in
      let rest =
        add_routes_accepts rs (slot + 1) (add_route api r slot s).1 v.1 unique.1 words.1
          (omega arith) (Vacant-add_route r rs slot s good words.0 (omega arith) unique.0 free.1)
          next in
      rw good rest
