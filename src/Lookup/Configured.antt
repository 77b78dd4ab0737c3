-- ===== src/Lookup/Configured.antt =====
-- From the configured rules to the lookup of a packet.
use dpdk_high_speed_flow_rou.Prelude.{ℕ, ◌^◌, ◌<◌, ◌≡◌, List, Option, some, All}
use dpdk_high_speed_flow_rou.Packet.{Meta}
use dpdk_high_speed_flow_rou.Rules.{FlowRule, RouteRule}
use dpdk_high_speed_flow_rou.Tables.{TableApi, TableLaws}
use dpdk_high_speed_flow_rou.Snapshot.Types.{World, Grants, Snapshot, elements, slots}
use dpdk_high_speed_flow_rou.Snapshot.Build.{snapshot_build}
use dpdk_high_speed_flow_rou.Snapshot.Success.{Provided, snapshot_build-Complete}
use dpdk_high_speed_flow_rou.Lookup.{lookup_packet}
use dpdk_high_speed_flow_rou.Lookup.Reference.{reference}
use dpdk_high_speed_flow_rou.Lookup.Refine.{resolve, lookup_packet-reference}

-- Let a build of arrays of the given lengths succeed, over tables that keep the laws of DPDK. Then
-- every lookup on its snapshot decides as the reference does on the rules: the flow with the packet's
-- key, else the route of longest prefix, else a miss. The action is read inside the array.
pub lookup_packet-snapshot_build :
    {api : TableApi} (laws : TableLaws api) (g : Grants) (flows : Option (List FlowRule)) (m : ℕ)
    (routes : Option (List RouteRule)) (n generation : ℕ) (w : World) (s : Snapshot api)
    (meta : Meta)
    → Provided flows m
    → Provided routes n
    → All (λ r. r.prefix < 2 ^ 32) (elements routes n)
    → meta.dst_ipv4 < 2 ^ 32
    → (snapshot_build api g flows m routes n generation w).result ≡ some s
    → resolve (slots s.actions) (lookup_packet api meta (some s))
      ≡ some (reference (elements flows m) (elements routes n) meta)
lookup_packet-snapshot_build laws g flows m routes n generation w s meta pf pr words ip h =
    lookup_packet-reference laws (elements flows m) (elements routes n) s
      (snapshot_build-Complete laws g flows m routes n generation w s pf pr words h) meta ip
