-- ===== src/Worker.antt =====
-- `dp_process_packet` of dataplane/native/dp_worker.c. `none` is a fault: a read or write outside of a
-- segment, or an action slot outside of the array. What is freed is the list of the addresses.
pub mod Balance
pub mod Total
pub mod Routed
pub mod Burst
pub mod Poll
pub mod Settled
pub mod Rounds
pub mod Run
pub mod Step
pub mod Threads
pub mod Turned
pub mod Advance
pub mod Reached
pub mod Over
pub mod Ended
pub mod Stop
pub mod Ownership
use dpdk_high_speed_flow_rou.Prelude.{
  ℕ, ◌+◌, List, [], ◌∷◌, Option, none, some, get_elem?, ◌>>=◌, ◌==◌, if◌then◌else◌, is_zero,
}
use dpdk_high_speed_flow_rou.Packet.{Meta, Mbuf, ParseResult, ok, unsupported, malformed}
use dpdk_high_speed_flow_rou.Parser.{parse_frame}
use dpdk_high_speed_flow_rou.Rules.{Action, action_drop, action_forward, action_rewrite}
use dpdk_high_speed_flow_rou.Tables.{TableApi}
use dpdk_high_speed_flow_rou.Snapshot.Types.{Snapshot, slots}
use dpdk_high_speed_flow_rou.Lookup.{LookupResult, flow_hit, route_hit, miss, lookup_packet}
use dpdk_high_speed_flow_rou.Action.{Checksums, apply_to}
use dpdk_high_speed_flow_rou.Stats.{PacketStats, add64}

-- The counters, the packet that goes on to TX, and what was freed.
pub record Processed : Type 0 where
  pub stats : PacketStats
  pub out : Option Mbuf
  pub freed : List ℕ

-- `rte_pktmbuf_free(mbuf); return NULL;`
abbrev pub dropped : Mbuf → PacketStats → Processed
dropped m stats = record { stats = stats; out = none; freed = m.addr ∷ [] }

abbrev pub passed : Mbuf → PacketStats → Processed
passed m stats = record { stats = stats; out = some m; freed = [] }

abbrev pub drop_by_action : Mbuf → PacketStats → Processed
drop_by_action m stats =
    dropped m (record stats { action_drop = add64 stats.action_drop 1; drop = add64 stats.drop 1 })

-- `*action`, through the pointer into the snapshot's array.
unfoldable pub action_at : {api : TableApi} → Option (Snapshot api) → Option ℕ → Option Action
action_at none slot = none
action_at (some s) none = none
action_at (some s) (some i) = get_elem? (slots s.actions) i

-- A rewrite that succeeds goes on; one that fails is dropped.
unfoldable pub act : Checksums → Action → Meta → Mbuf → PacketStats → Option Processed
act sums a meta m stats =
    if a.type == action_drop
    then some (drop_by_action m stats)
    else (if a.type == action_forward
        then some (passed m (record stats { action_forward = add64 stats.action_forward 1 }))
        else (if a.type == action_rewrite
            then (do
              (ret, m₁) ← apply_to sums m meta a
              some (
                  if is_zero ret
                  then passed m₁ (record stats { action_rewrite = add64 stats.action_rewrite 1 })
                  else drop_by_action m₁ stats))
            else some (drop_by_action m stats)))

module _ (sums : Checksums) (api : TableApi) (snapshot : Option (Snapshot api)) where
  unfoldable pub after_lookup :
      LookupResult × Option ℕ → Meta → Mbuf → PacketStats → Option Processed
  unfolding act
  after_lookup (flow_hit, slot) meta m stats = do
    a ← action_at snapshot slot
    act sums a meta m (record stats { flow_hit = add64 stats.flow_hit 1 })
  after_lookup (route_hit, slot) meta m stats = do
    a ← action_at snapshot slot
    act sums a meta m (record stats { route_hit = add64 stats.route_hit 1 })
  after_lookup (miss, slot) meta m stats =
      some (drop_by_action m (record stats { lookup_miss = add64 stats.lookup_miss 1 }))

  unfoldable pub after_parse : ParseResult × Meta → Mbuf → PacketStats → Option Processed
  unfolding after_lookup
  after_parse (unsupported, meta) m stats = some (
      dropped m (record stats {
        parse_unsupported = add64 stats.parse_unsupported 1;
        drop = add64 stats.drop 1;
      }))
  after_parse (malformed, meta) m stats = some (
      dropped m (record stats {
        parse_malformed = add64 stats.parse_malformed 1;
        drop = add64 stats.drop 1;
      }))
  after_parse (ok, meta) m stats =
      after_lookup (lookup_packet api meta snapshot) meta m
        (record stats { parse_ok = add64 stats.parse_ok 1 })

  -- `scratch` is what the uninitialised `meta` holds.
  unfoldable pub process_packet : Meta → Mbuf → PacketStats → Option Processed
  unfolding after_parse
  process_packet scratch m stats = do parsed ← parse_frame m scratch; after_parse parsed m stats
