-- ===== src/Snapshot/Taken.antt =====
-- What the calls into the tables answer in the loops of dp_snapshot_build.
use dpdk_high_speed_flow_rou.Prelude.{ℕ, ◌+◌, ◌≡◌, false, List, [], ◌∷◌, length, is_neg}
use dpdk_high_speed_flow_rou.Rules.{Action, FlowRule, RouteRule, flow_key_of_rule}
use dpdk_high_speed_flow_rou.Tables.{TableApi, TableLaws}
use dpdk_high_speed_flow_rou.Snapshot.Types.{new_flow_table, new_route_table}
use dpdk_high_speed_flow_rou.Snapshot.Loops.{add_flow, add_flows, add_route, add_routes}
use dpdk_high_speed_flow_rou.Snapshot.Flows.{add_flow-ok, add_flows-cons}
use dpdk_high_speed_flow_rou.Snapshot.Routes.{add_route-ok, add_routes-cons}

module _ (api : TableApi) where
  -- The hash table takes the keys of these flows, one after the other, the first with value `i`.
  abbrev pub TakesFlows : api.Hash → ℕ → List FlowRule → Type 0
  TakesFlows t i [] = Unit {0}
  TakesFlows t i (f ∷ fs) =
      (is_neg (api.hash_add_key_data t (flow_key_of_rule f) i).0 ≡ false)
      × TakesFlows (api.hash_add_key_data t (flow_key_of_rule f) i).1 (i + 1) fs

  -- The LPM table answers for the prefixes of these routes and takes them, the first with next hop
  -- `slot`.
  abbrev pub TakesRoutes : api.Lpm → ℕ → List RouteRule → Type 0
  TakesRoutes t slot [] = Unit {0}
  TakesRoutes t slot (r ∷ rs) =
      (is_neg (api.lpm_is_rule_present t r.prefix r.depth) ≡ false)
      × (is_neg (api.lpm_add t r.prefix r.depth slot).0 ≡ false)
      × TakesRoutes (api.lpm_add t r.prefix r.depth slot).1 (slot + 1) rs

  -- The new tables take these rules.
  abbrev pub Taken : List FlowRule → List RouteRule → Type 0
  Taken fs rs =
      TakesFlows (new_flow_table api) 0 fs × TakesRoutes (new_route_table api) (length fs) rs

module _ {api : TableApi} (laws : TableLaws api) where
  pub add_flows-TakesFlows :
      (fs : List FlowRule) (i : ℕ) (s : api.Hash × List Action)
      → is_neg (add_flows api fs i s).0 ≡ false
      → TakesFlows api s.0 i fs
  add_flows-TakesFlows [] i s h = tt
  add_flows-TakesFlows (f ∷ fs) i s h =
      let (good, step) = add_flows-cons laws f fs i s h in
      let (absent, added, table, array) = add_flow-ok laws f i s.0 s.1 good in
      let rest = add_flows-TakesFlows fs (i + 1) (add_flow api f i s).1 (rw step at h) in
      (added, rw table at rest)

  pub add_routes-TakesRoutes :
      (rs : List RouteRule) (slot : ℕ) (s : api.Lpm × List Action)
      → is_neg (add_routes api rs slot s).0 ≡ false
      → TakesRoutes api s.0 slot rs
  add_routes-TakesRoutes [] slot s h = tt
  add_routes-TakesRoutes (r ∷ rs) slot s h =
      let (good, step) = add_routes-cons laws r rs slot s h in
      let (sound, bits, asked, absent, added, table, array) =
        add_route-ok laws r slot s.0 s.1 good in
      let rest = add_routes-TakesRoutes rs (slot + 1) (add_route api r slot s).1 (rw step at h) in
      (asked, added, rw table at rest)
