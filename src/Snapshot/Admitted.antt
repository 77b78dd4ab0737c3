-- ===== src/Snapshot/Admitted.antt =====
-- Which rules dp_snapshot_build takes over.
use dpdk_high_speed_flow_rou.Prelude.{ℕ, ◌^◌, ◌<◌, ◌≡◌, List, Option, some, All}
use dpdk_high_speed_flow_rou.Rules.{FlowRule, RouteRule}
use dpdk_high_speed_flow_rou.Tables.{TableApi, TableLaws}
use dpdk_high_speed_flow_rou.Snapshot.Types.{World, Grants, Snapshot, elements}
use dpdk_high_speed_flow_rou.Snapshot.Build.{snapshot_build}
use dpdk_high_speed_flow_rou.Snapshot.Valid.{IsFlowRule, IsRouteRule, Distinct}
use dpdk_high_speed_flow_rou.Snapshot.Unique.{AreUnique}
use dpdk_high_speed_flow_rou.Snapshot.Success.{Provided, snapshot_build-Complete}

-- Let a build of arrays of the given lengths succeed, over tables that keep the laws of DPDK. Then
-- every flow is for TCP or UDP, every route has a depth from 1 to 32 and no host bits, all reserved
-- bytes are zero, and every action passed the validation. No two flows have the same key, and no two
-- routes the same prefix and depth.
pub snapshot_build-IsFlowRule :
    {api : TableApi} (laws : TableLaws api) (g : Grants) (flows : Option (List FlowRule)) (m : ℕ)
    (routes : Option (List RouteRule)) (n generation : ℕ) (w : World) (s : Snapshot api)
    → Provided flows m
    → Provided routes n
    → All (λ r. r.prefix < 2 ^ 32) (elements routes n)
    → (snapshot_build api g flows m routes n generation w).result ≡ some s
    → All IsFlowRule (elements flows m)
      × Distinct (elements flows m)
      × All IsRouteRule (elements routes n)
      × AreUnique (elements routes n)
snapshot_build-IsFlowRule laws g flows m routes n generation w s pf pr words h =
    let c = snapshot_build-Complete laws g flows m routes n generation w s pf pr words h in
    (c.valid_flows.0, c.valid_flows.1, c.valid_routes.0, c.valid_routes.1)
