-- ===== src/Lookup.antt =====
-- `dp_lookup_packet` of dataplane/native/dp_lookup.c. The action that it points at is named by its
-- slot in the snapshot's array.
pub mod Reference
pub mod Refine
pub mod Order
pub mod RuleSet
pub mod Configured
pub mod Chosen
use dpdk_high_speed_flow_rou.Prelude.{ℕ, Option, none, some, ltb, ◌>>=◌, if◌then◌else◌}
use dpdk_high_speed_flow_rou.Packet.{Meta}
use dpdk_high_speed_flow_rou.Rules.{flow_key_from_meta}
use dpdk_high_speed_flow_rou.Tables.{TableApi}
use dpdk_high_speed_flow_rou.Snapshot.Types.{Snapshot}

-- `enum dp_lookup_result`
pub data LookupResult : Type 0 where
  flow_hit route_hit miss : LookupResult

-- A next hop counts only where it names a slot.
unfoldable pub route_result : Option ℕ → ℕ → LookupResult × Option ℕ
route_result none action_count = (miss, none)
route_result (some i) action_count =
    if ltb i action_count then (route_hit, some i) else (miss, none)

-- A flow that is found ends the lookup.
unfoldable pub flow_result : Option ℕ → LookupResult × Option ℕ → LookupResult × Option ℕ
flow_result none rest = rest
flow_result (some i) rest = (flow_hit, some i)

module _ (api : TableApi) where
  -- The second half, where no flow matched.
  unfoldable pub lookup_route : Meta → Snapshot api → LookupResult × Option ℕ
  unfolding route_result
  lookup_route meta s = elim s.route_table [
    | none ↦ (miss, none)
    | some table ↦ route_result (api.lpm_lookup table meta.dst_ipv4) s.action_count
  ]

  unfoldable pub lookup_snapshot : Meta → Snapshot api → LookupResult × Option ℕ
  unfolding flow_result
  lookup_snapshot meta s =
      let slot = s.flow_table >>= λ t. api.hash_lookup_data t (flow_key_from_meta meta) in
      flow_result slot (lookup_route meta s)

  unfoldable pub lookup_packet : Meta → Option (Snapshot api) → LookupResult × Option ℕ
  unfolding lookup_snapshot lookup_route
  lookup_packet meta none = (miss, none)
  lookup_packet meta (some s) = lookup_snapshot meta s
