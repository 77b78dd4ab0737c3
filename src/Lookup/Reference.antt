-- ===== src/Lookup/Reference.antt =====
-- What a lookup means for the rules as they were configured: the flow with the packet's key, else the
-- route of longest prefix, else nothing.
use dpdk_high_speed_flow_rou.Prelude.{
  ℕ, Bool, true, ◌&&◌, List, [], ◌∷◌, Option, none, some, leb, if◌then◌else◌,
}
use dpdk_high_speed_flow_rou.Packet.{Meta}
use dpdk_high_speed_flow_rou.Rules.{
  Action, FlowRule, RouteRule, FlowKey, same_key, flow_key_from_meta, flow_key_of_rule,
}
use dpdk_high_speed_flow_rou.Tables.{covers}

abbrev pub find_flow : List FlowRule → FlowKey → Option Action
find_flow [] k = none
find_flow (f ∷ fs) k = if same_key (flow_key_of_rule f) k then some f.action else find_flow fs k

abbrev pub no_shorter : RouteRule → Option RouteRule → Bool
no_shorter r none = true
no_shorter r (some q) = leb q.depth r.depth

-- The route of greatest depth among those that cover the address.
abbrev pub best_route : List RouteRule → ℕ → Option RouteRule
best_route [] ip = none
best_route (r ∷ rs) ip =
    let rest = best_route rs ip in
    if covers r.prefix r.depth ip && no_shorter r rest then some r else rest

-- The two kinds of hit are kept apart, since the counters tell them apart.
pub data Choice : Type 0 where
  flow_action : Action → Choice
  route_action : Action → Choice
  no_rule : Choice

abbrev pub choose_route : Option RouteRule → Choice
choose_route none = no_rule
choose_route (some r) = route_action r.action

abbrev pub choose : Option Action → Option RouteRule → Choice
choose (some a) route = flow_action a
choose none route = choose_route route

abbrev pub reference : List FlowRule → List RouteRule → Meta → Choice
reference flows routes meta =
    choose (find_flow flows (flow_key_from_meta meta)) (best_route routes meta.dst_ipv4)
