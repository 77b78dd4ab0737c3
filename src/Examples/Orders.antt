-- ===== src/Examples/Orders.antt =====
-- Two flows and two nested routes, in either order.
use mathlib.Core.List.Perm
use dpdk_high_speed_flow_rou.Prelude.{◌≡◌, ◌↔◌, refl, [], ◌∷◌, some, arith, pos}
use dpdk_high_speed_flow_rou.Rules.{
  FlowRule, RouteRule, validate_action, flow_rejected, route_rejected, has_host_bits,
  flow_key_of_rule,
}
use dpdk_high_speed_flow_rou.Packet.{Meta}
use dpdk_high_speed_flow_rou.Parser.{zero_meta}
use dpdk_high_speed_flow_rou.Tables.Assoc.{assoc_api, assoc-TableLaws}
use dpdk_high_speed_flow_rou.Snapshot.Types.{Snapshot, slots}
use dpdk_high_speed_flow_rou.Snapshot.Taken.{Taken}
use dpdk_high_speed_flow_rou.Snapshot.Loops.{add_flow, add_flows, add_route, add_routes}
use dpdk_high_speed_flow_rou.Snapshot.Build.{
  alloc_actions, create_flow_table, create_route_table, fill_flows, fill_routes, build_steps,
  finish_build, build_granted, snapshot_build,
}
use dpdk_high_speed_flow_rou.Lookup.{lookup_packet}
use dpdk_high_speed_flow_rou.Lookup.Refine.{resolve}
use dpdk_high_speed_flow_rou.Control.{RuleArrays, build}
use dpdk_high_speed_flow_rou.Control.Reordered.{
  IsPresent, Reordered, lookup_packet-Reordered, build-Reordered,
}
use dpdk_high_speed_flow_rou.Examples.Data.{flow, route, world, all_granted, plain_action}

abbrev back_flow : FlowRule
back_flow = record flow { src_port = 80; dst_port = 1234; action = plain_action 0 }

abbrev narrow_route : RouteRule
narrow_route = record route { prefix = 0x0a010000; depth = 16; action = plain_action 1 }

abbrev one_order : RuleArrays
one_order = record {
  flows = some (flow ∷ back_flow ∷ []);
  flow_count = 2;
  routes = some (route ∷ narrow_route ∷ []);
  route_count = 2;
}

abbrev other_order : RuleArrays
other_order = record {
  flows = some (back_flow ∷ flow ∷ []);
  flow_count = 2;
  routes = some (narrow_route ∷ route ∷ []);
  route_count = 2;
}

abbrev one_built : Snapshot assoc_api
one_built = record {
  flow_table = some ((flow_key_of_rule back_flow, 1) ∷ (flow_key_of_rule flow, 0) ∷ []);
  route_table = some (
      record { prefix = 0x0a000000; depth = 8; next_hop = 2 }
      ∷ record { prefix = 0x0a010000; depth = 16; next_hop = 3 }
      ∷ []);
  actions = some (plain_action 1 ∷ plain_action 0 ∷ plain_action 0 ∷ plain_action 1 ∷ []);
  action_count = 4;
  generation = 1;
}

abbrev other_built : Snapshot assoc_api
other_built = record {
  flow_table = some ((flow_key_of_rule flow, 1) ∷ (flow_key_of_rule back_flow, 0) ∷ []);
  route_table = some (
      record { prefix = 0x0a010000; depth = 16; next_hop = 2 }
      ∷ record { prefix = 0x0a000000; depth = 8; next_hop = 3 }
      ∷ []);
  actions = some (plain_action 0 ∷ plain_action 1 ∷ plain_action 1 ∷ plain_action 0 ∷ []);
  action_count = 4;
  generation = 2;
}

build-one_built : (build assoc_api all_granted one_order 1 world).result ≡ some one_built
unfolding snapshot_build build_granted finish_build build_steps alloc_actions create_flow_table
    create_route_table fill_flows fill_routes add_flows add_flow add_routes add_route flow_rejected
    route_rejected has_host_bits validate_action flow_key_of_rule
build-one_built = refl

build-other_built : (build assoc_api all_granted other_order 2 world).result ≡ some other_built
unfolding snapshot_build build_granted finish_build build_steps alloc_actions create_flow_table
    create_route_table fill_flows fill_routes add_flows add_flow add_routes add_route flow_rejected
    route_rejected has_host_bits validate_action flow_key_of_rule
build-other_built = refl

one_order-IsPresent : IsPresent one_order
one_order-IsPresent = record {
  flows = omega arith;
  routes = omega arith;
  flows_there = refl;
  routes_there = refl;
  words = (omega arith, (omega arith, tt));
}

other_order-IsPresent : IsPresent other_order
other_order-IsPresent = record {
  flows = omega arith;
  routes = omega arith;
  flows_there = refl;
  routes_there = refl;
  words = (omega arith, (omega arith, tt));
}

orders-Reordered : Reordered one_order other_order
orders-Reordered = (Perm.swap back_flow flow [], Perm.swap narrow_route route [])

-- A packet to 10.1.0.9, which both routes cover.
abbrev covered_meta : Meta
covered_meta = record zero_meta { dst_ipv4 = 0x0a010009 }

lookup_packet-Reordered_example :
    resolve (slots one_built.actions) (lookup_packet assoc_api covered_meta (some one_built))
    ≡ resolve (slots other_built.actions) (lookup_packet assoc_api covered_meta (some other_built))
lookup_packet-Reordered_example =
    lookup_packet-Reordered assoc-TableLaws all_granted all_granted one_order other_order 1 2 world
      world one_built other_built covered_meta one_order-IsPresent other_order-IsPresent
      orders-Reordered (omega arith) build-one_built build-other_built

one_order_ret : (build assoc_api all_granted one_order 1 world).ret ≡ pos 0
unfolding snapshot_build build_granted finish_build build_steps alloc_actions create_flow_table
    create_route_table fill_flows fill_routes add_flows add_flow add_routes add_route flow_rejected
    route_rejected has_host_bits validate_action flow_key_of_rule
one_order_ret = refl

build-Reordered_example :
    ((build assoc_api all_granted other_order 2 world).ret ≡ pos 0)
    ↔ Taken assoc_api (back_flow ∷ flow ∷ []) (narrow_route ∷ route ∷ [])
build-Reordered_example =
    build-Reordered assoc-TableLaws all_granted all_granted one_order other_order 1 2 world world
      (refl, refl, refl, refl) (refl, refl, refl, refl) one_order-IsPresent other_order-IsPresent
      orders-Reordered one_order_ret
