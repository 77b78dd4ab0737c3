-- ===== src/Examples/Rules.antt =====
-- Rules that are filled in, admitted, and torn down.
use dpdk_high_speed_flow_rou.Prelude.{
  ◌≡◌, ◌↔◌, refl, true, [], ◌∷◌, some, arith, All, ◌>>=◌, pos, minus, ebusy,
}
use dpdk_high_speed_flow_rou.Tables.Assoc.{assoc_api, assoc-TableLaws}
use dpdk_high_speed_flow_rou.Control.{publish_rules}
use dpdk_high_speed_flow_rou.Control.Switch.{Switched, publish_rules-Switched}
use dpdk_high_speed_flow_rou.Binding.{argv_alloc, argv_set, flow_rules_alloc, route_rules_alloc}
use dpdk_high_speed_flow_rou.Binding.Arrays.{
  fill, cleared_flow, cleared_route, write_flow, write_route, fill-flow_rules_alloc,
}
use dpdk_high_speed_flow_rou.Snapshot.Valid.{IsFlowRule, IsRouteRule, Distinct}
use dpdk_high_speed_flow_rou.Snapshot.Unique.{AreUnique}
use dpdk_high_speed_flow_rou.Snapshot.Admitted.{snapshot_build-IsFlowRule}
use dpdk_high_speed_flow_rou.Snapshot.Accepted.{Acceptable, snapshot_build-Acceptable}
use dpdk_high_speed_flow_rou.Snapshot.Taken.{Taken}
use dpdk_high_speed_flow_rou.Snapshot.Build.{snapshot_build}
use dpdk_high_speed_flow_rou.Runtime.Guard.{
  test_runtime_cleanup_guard, test_runtime_cleanup_guard_refuses,
}
use dpdk_high_speed_flow_rou.Examples.Data.{
  flow, route, world, all_granted, built, snapshot_build-built, bare_state, ruled_state, arrays,
}

snapshot_build-IsFlowRule_example :
    All IsFlowRule (flow ∷ [])
    × Distinct (flow ∷ [])
    × All IsRouteRule (route ∷ [])
    × AreUnique (route ∷ [])
snapshot_build-IsFlowRule_example =
    snapshot_build-IsFlowRule assoc-TableLaws all_granted (some (flow ∷ [])) 1 (some (route ∷ [])) 1
      1 world built (omega arith) (omega arith) (omega arith, tt) snapshot_build-built

fill-flow_rules_alloc_example :
    ((argv_alloc true 2 >>= fill argv_set (100 ∷ 200 ∷ []) 0) ≡ some (some 100 ∷ some 200 ∷ []))
    × ((flow_rules_alloc true 1 >>= fill write_flow (flow ∷ []) 0) ≡ some (cleared_flow flow ∷ []))
    × ((route_rules_alloc true 2 >>= fill write_route (route ∷ route ∷ []) 0)
        ≡ some (cleared_route route ∷ cleared_route route ∷ []))
fill-flow_rules_alloc_example =
    fill-flow_rules_alloc (100 ∷ 200 ∷ []) (flow ∷ []) (route ∷ route ∷ [])

-- A live pool.
test_runtime_cleanup_guard_refuses_example :
    test_runtime_cleanup_guard assoc_api built (pos 0) 3 bare_state ≡ (minus ebusy, bare_state)
test_runtime_cleanup_guard_refuses_example =
    test_runtime_cleanup_guard_refuses assoc_api built (pos 0) 3 bare_state

publish_rules-Switched_example :
    Switched arrays ruled_state (publish_rules assoc_api true all_granted arrays ruled_state)
publish_rules-Switched_example =
    publish_rules-Switched assoc-TableLaws true all_granted arrays ruled_state (omega arith)
      (omega arith) (omega arith, tt)

snapshot_build-Acceptable_example :
    ((snapshot_build assoc_api all_granted (some (flow ∷ [])) 1 (some (route ∷ [])) 1 1 world).ret
      ≡ pos 0)
    ↔ (Acceptable (some (flow ∷ [])) 1 (some (route ∷ [])) 1
        × Taken assoc_api (flow ∷ []) (route ∷ []))
snapshot_build-Acceptable_example =
    snapshot_build-Acceptable assoc-TableLaws all_granted (some (flow ∷ [])) 1 (some (route ∷ [])) 1
      1 world (refl, refl, refl, refl) (omega arith) (omega arith) (omega arith, tt)
