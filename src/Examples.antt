-- ===== src/Examples.antt =====
-- The theorems at concrete inputs: a TCP frame from 10.0.0.1:1234 to 10.0.0.2:80, a flow rule that
-- forwards it, and a route that drops 10.0.0.0/8.
pub mod Data
pub mod Ports
pub mod Runs
pub mod Readers
pub mod Lives
pub mod Orders
pub mod GoControl
pub mod Rewrites
pub mod Rules
use dpdk_high_speed_flow_rou.Prelude.{
  ℕ, ◌%◌, ◌^◌, ◌-◌, ◌≡◌, ◌↔◌, ◌⊎◌, refl, true, false, List, [], ◌∷◌, ◌++◌, ◌>>=◌, none, some, arith,
  pos, minus, einval, ebusy, inl,
}
use dpdk_high_speed_flow_rou.Packet.{Meta, Mbuf, IsMbuf, ok}
use dpdk_high_speed_flow_rou.Packet
use dpdk_high_speed_flow_rou.Parser.{zero_meta, parse_frame}
use dpdk_high_speed_flow_rou.Parser
use dpdk_high_speed_flow_rou.Parser.Frame.{meta_of, IsFlowFrame}
use dpdk_high_speed_flow_rou.Parser.Accept.{Judged, parse_frame-Judged}
use dpdk_high_speed_flow_rou.Rules.{
  Action, FlowRule, RouteRule, validate_action, flow_rejected, route_rejected, has_host_bits,
  flow_key_of_rule, flow_key_from_meta,
}
use dpdk_high_speed_flow_rou.Rules.Mask.{IsAction, validate_action-IsAction, has_host_bits_iff}
use dpdk_high_speed_flow_rou.Tables.Assoc.{assoc_api, assoc-TableLaws}
use dpdk_high_speed_flow_rou.Snapshot.Types.{
  Ledger, RuleStats, World, Grants, granted, Snapshot, slots,
}
use dpdk_high_speed_flow_rou.Snapshot.Loops.{add_flow, add_flows, add_route, add_routes}
use dpdk_high_speed_flow_rou.Snapshot.Build.{
  alloc_actions, create_flow_table, create_route_table, fill_flows, fill_routes, build_steps,
  finish_build, build_granted, snapshot_build,
}
use dpdk_high_speed_flow_rou.Snapshot.Ledgers.{Settled, snapshot_build-Settled}
use dpdk_high_speed_flow_rou.Lookup.{lookup_packet}
use dpdk_high_speed_flow_rou.Lookup.Reference.{flow_action}
use dpdk_high_speed_flow_rou.Lookup.Refine.{resolve}
use dpdk_high_speed_flow_rou.Lookup.Configured.{lookup_packet-snapshot_build}
use dpdk_high_speed_flow_rou.Action.{Checksums, apply_to}
use dpdk_high_speed_flow_rou.Action.Total.{Applied, apply_to-Applied}
use dpdk_high_speed_flow_rou.Stats
use dpdk_high_speed_flow_rou.Stats.{PacketStats, zero_stats}
use dpdk_high_speed_flow_rou.Worker.{Processed, passed, process_packet, action_at}
use dpdk_high_speed_flow_rou.Tx.{addrs, complete_tx}
use dpdk_high_speed_flow_rou.Tx.Complete.{complete_tx-IsBalanced}
use dpdk_high_speed_flow_rou.Worker.Burst.{sweep, outcome, handle_all, sweep-handle_all}
use dpdk_high_speed_flow_rou.Worker.Total.{IsHandled, process_packet-IsHandled}
use dpdk_high_speed_flow_rou.Worker.Balance.{IsBalanced, process_packet-IsBalanced}
use dpdk_high_speed_flow_rou.Worker.Ownership.{IsOwned, process_packet-IsOwned}
use dpdk_high_speed_flow_rou.State.{Dp, WorkerCtx}
use dpdk_high_speed_flow_rou.Control.{
  RuleArrays, made, configure_rules, publish_rules, rules_teardown,
}
use dpdk_high_speed_flow_rou.Control.Lifetime.{
  IsKept, IsPublished, configure_rules-IsKept, publish_rules-IsKept, rules_teardown-IsKept,
}
use dpdk_high_speed_flow_rou.Runtime.{DpStats, get_stats, runtime_cleanup}
use dpdk_high_speed_flow_rou.Runtime.Totals.{IsTotal, get_stats-IsTotal}
use dpdk_high_speed_flow_rou.Runtime.Cleanup.{IsReleased, runtime_cleanup-IsReleased}
use dpdk_high_speed_flow_rou.Examples.Data.{
  frame, packet, packet-IsMbuf, frame-IsFlowFrame, plain_action, flow, route, nothing, no_stats,
  world, all_granted, built, snapshot_build-built, zero_sums, one_waiting, forwarded,
  process_packet-forwarded, rewriting, worker, bare_state, ruled_state, bare_state-IsKept,
  ruled_state-IsKept, arrays, worker, two_forwarded, received,
}

parse_frame-Judged_example : Judged frame (parse_frame packet zero_meta)
parse_frame-Judged_example = parse_frame-Judged packet zero_meta packet-IsMbuf refl refl

validate_action-IsAction_example :
    ((validate_action flow.action ≡ pos 0) ↔ IsAction flow.action)
    × ((validate_action flow.action ≡ pos 0) ⊎ (validate_action flow.action ≡ minus einval))
validate_action-IsAction_example = validate_action-IsAction flow.action (omega arith)

has_host_bits_iff_example :
    (has_host_bits route ≡ false) ↔ (route.prefix % 2 ^ (32 - route.depth) ≡ 0)
has_host_bits_iff_example = has_host_bits_iff route (omega arith) (omega arith)

lookup_packet-snapshot_build_example :
    resolve (slots built.actions) (lookup_packet assoc_api (meta_of frame) (some built))
    ≡ some (flow_action (plain_action 1))
unfolding flow_key_of_rule flow_key_from_meta
lookup_packet-snapshot_build_example =
    lookup_packet-snapshot_build assoc-TableLaws all_granted (some (flow ∷ [])) 1
      (some (route ∷ [])) 1 1 world built (meta_of frame) (omega arith) (omega arith) (omega arith)
      (omega arith) snapshot_build-built

snapshot_build-Settled_example :
    Settled assoc_api 1 world
      (snapshot_build assoc_api all_granted (some (flow ∷ [])) 1 (some (route ∷ [])) 1 1 world)
snapshot_build-Settled_example =
    snapshot_build-Settled assoc_api 1 world all_granted (some (flow ∷ [])) 1 (some (route ∷ [])) 1

process_packet-IsHandled_example :
    IsHandled packet 0 0
      (process_packet zero_sums assoc_api (some built) zero_meta packet one_waiting)
process_packet-IsHandled_example =
    process_packet-IsHandled assoc-TableLaws all_granted (some (flow ∷ [])) 1 (some (route ∷ [])) 1
      1 world built zero_sums zero_meta packet one_waiting 0 0 (omega arith) (omega arith)
      (omega arith, tt) snapshot_build-built packet-IsMbuf (omega arith)

apply_to-Applied_example :
    Applied packet rewriting (apply_to zero_sums packet (meta_of frame) rewriting)
apply_to-Applied_example = apply_to-Applied zero_sums packet rewriting frame-IsFlowFrame

process_packet-IsBalanced_example : IsBalanced 0 1 forwarded.stats
process_packet-IsBalanced_example =
    process_packet-IsBalanced 0 0 zero_sums assoc_api (some built) zero_meta packet one_waiting
      forwarded (omega arith) process_packet-forwarded

configure_rules-IsKept_example :
    IsKept assoc_api nothing (configure_rules assoc_api made all_granted arrays bare_state).1
configure_rules-IsKept_example =
    configure_rules-IsKept assoc_api nothing made all_granted arrays bare_state bare_state-IsKept

publish_rules-IsKept_example :
    IsKept assoc_api nothing (publish_rules assoc_api true all_granted arrays ruled_state).dp
    × IsPublished assoc_api nothing ruled_state
        (publish_rules assoc_api true all_granted arrays ruled_state)
publish_rules-IsKept_example =
    publish_rules-IsKept assoc_api nothing true all_granted arrays ruled_state ruled_state-IsKept

rules_teardown-IsKept_example :
    IsKept assoc_api nothing (rules_teardown assoc_api ruled_state)
    × ((rules_teardown assoc_api ruled_state).world.ledger ≡ nothing)
    × ((rules_teardown assoc_api ruled_state).rules_qsbr ≡ false)
rules_teardown-IsKept_example =
    rules_teardown-IsKept assoc_api nothing ruled_state ruled_state-IsKept

-- Two workers that have forwarded two packets each.
abbrev counted_state : Dp assoc_api
counted_state = record bare_state {
  workers =
      record worker { stats = two_forwarded }
      ∷ record worker { stats = record two_forwarded { rx = 7; lookup_miss = 5 } }
      ∷ [];
}

get_stats-IsTotal_example :
    (out : DpStats) × (get_stats assoc_api true counted_state ≡ (pos 0, some out))
    × IsTotal counted_state out
get_stats-IsTotal_example = get_stats-IsTotal assoc_api counted_state refl

runtime_cleanup-IsReleased_example :
    (((runtime_cleanup assoc_api (pos 0) bare_state).1.initialized ≡ false) ↔ IsReleased bare_state)
    × (IsReleased bare_state → (runtime_cleanup assoc_api (pos 0) bare_state).0 ≡ pos 0)
    × (¬ IsReleased bare_state
        → runtime_cleanup assoc_api (pos 0) bare_state ≡ (minus ebusy, bare_state))
runtime_cleanup-IsReleased_example = runtime_cleanup-IsReleased assoc_api (pos 0) bare_state refl

sweep-handle_all_example :
    (sweep zero_sums assoc_api
        (some built)
        zero_meta
        2
        0
        (record { pkts = received; tx_count = 0; stats = zero_stats; freed = [] })
      >>= outcome)
    ≡ handle_all zero_sums assoc_api (some built) zero_meta received [] zero_stats []
sweep-handle_all_example =
    sweep-handle_all zero_sums assoc_api (some built) zero_meta received zero_stats
