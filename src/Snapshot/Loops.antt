-- ===== src/Snapshot/Loops.antt =====
-- The two loops of `dp_snapshot_build`, on a table and the action array.
use dpdk_high_speed_flow_rou.Prelude.{
  ℕ, ◌+◌, not, List, [], ◌∷◌, if◌then◌else◌, set, ℤ, pos, is_neg, is_zero, minus, einval, eexist,
}
use dpdk_high_speed_flow_rou.Rules.{
  Action, FlowRule, RouteRule, flow_key_of_rule, validate_action, flow_rejected, route_rejected,
  has_host_bits,
}
use dpdk_high_speed_flow_rou.Tables.{TableApi}
use dpdk_high_speed_flow_rou.Snapshot.Types.{is_some}

module _ (api : TableApi) where
  -- One round of the flow loop, on the table and the action array.
  unfoldable pub add_flow : FlowRule → ℕ → api.Hash × List Action → ℤ × (api.Hash × List Action)
  add_flow f i (table, actions) =
      if flow_rejected f
      then (minus einval, (table, actions))
      else (if is_neg (validate_action f.action)
          then (validate_action f.action, (table, actions))
          else (if is_some (api.hash_lookup_data table (flow_key_of_rule f))
              then (minus eexist, (table, actions))
              else let (ret, table₁) = api.hash_add_key_data table (flow_key_of_rule f) i in
                (ret, (table₁, set actions i f.action))))

  unfoldable pub add_flows :
      List FlowRule → ℕ → api.Hash × List Action → ℤ × (api.Hash × List Action)
  add_flows [] i s = (pos 0, s)
  add_flows (f ∷ fs) i s =
      let (ret, s₁) = add_flow f i s in
      let rest = add_flows fs (i + 1) s₁ in if is_neg ret then (ret, s₁) else rest

  -- One round of the route loop; `slot` is `flow_count + i`.
  unfoldable pub add_route : RouteRule → ℕ → api.Lpm × List Action → ℤ × (api.Lpm × List Action)
  add_route r slot (table, actions) =
      if route_rejected r
      then (minus einval, (table, actions))
      else (if has_host_bits r
          then (minus einval, (table, actions))
          else (if is_neg (validate_action r.action)
              then (validate_action r.action, (table, actions))
              else let present = api.lpm_is_rule_present table r.prefix r.depth in
                (if is_neg present
                  then (present, (table, actions))
                  else (if not (is_zero present)
                      then (minus eexist, (table, actions))
                      else let (ret, table₁) = api.lpm_add table r.prefix r.depth slot in
                        (ret, (table₁, set actions slot r.action))))))

  unfoldable pub add_routes :
      List RouteRule → ℕ → api.Lpm × List Action → ℤ × (api.Lpm × List Action)
  add_routes [] slot s = (pos 0, s)
  add_routes (r ∷ rs) slot s =
      let (ret, s₁) = add_route r slot s in
      let rest = add_routes rs (slot + 1) s₁ in if is_neg ret then (ret, s₁) else rest
