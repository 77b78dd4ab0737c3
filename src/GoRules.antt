-- ===== src/GoRules.antt =====
-- control/dataplane/rules.go: the rules as the Go control keeps them, and their validation before they
-- go to the native side. An `error` that is nil is `true`. A Go map is the list of its keys.
pub mod Agreed
pub mod Accepted
pub mod Runtime
pub mod Kept
pub mod Deleted
use dpdk_high_speed_flow_rou.Prelude.{
  ℕ, ◌-◌, ◌+◌, ◌*◌, ◌^◌, Bool, true, false, not, ◌&&◌, ◌||◌, List, [], ◌∷◌, Option, none, some, map,
  length, ltb, ◌==◌, if◌then◌else◌, bit_and, u32,
}
use dpdk_high_speed_flow_rou.Rules.{
  Action, FlowRule, RouteRule, action_drop, action_forward, action_rewrite, valid_mask,
  max_flow_rules, max_route_rules,
}
use dpdk_high_speed_flow_rou.Control.{RuleArrays}

-- `RuleAction`, `FlowRule`, `RouteRule` and `RuleSnapshot` of Go
pub record RuleAction : Type 0 where
  pub type : ℕ  -- uint8
  pub rewrite_mask : ℕ  -- uint8
  pub src_ipv4 : ℕ  -- uint32
  pub dst_ipv4 : ℕ  -- uint32
  pub src_port : ℕ  -- uint16
  pub dst_port : ℕ  -- uint16

pub record GoFlowRule : Type 0 where
  pub src_ipv4 : ℕ  -- uint32
  pub dst_ipv4 : ℕ  -- uint32
  pub src_port : ℕ  -- uint16
  pub dst_port : ℕ  -- uint16
  pub l4_proto : ℕ  -- uint8
  pub action : RuleAction

pub record GoRouteRule : Type 0 where
  pub prefix : ℕ  -- uint32
  pub depth : ℕ  -- uint8
  pub action : RuleAction

pub record RuleSnapshot : Type 0 where
  pub flows : List GoFlowRule
  pub routes : List GoRouteRule

-- The equality of the keys `[5]uint64` and `[2]uint64`, which are made of the fields.
abbrev pub same_flow : GoFlowRule → GoFlowRule → Bool
same_flow f g =
    f.src_ipv4 == g.src_ipv4
    && (f.dst_ipv4 == g.dst_ipv4
        && (f.src_port == g.src_port && (f.dst_port == g.dst_port && f.l4_proto == g.l4_proto)))

abbrev pub same_route : GoRouteRule → GoRouteRule → Bool
same_route r p = r.prefix == p.prefix && r.depth == p.depth

-- Whether the key of a rule is in the map of the keys of others.
abbrev pub exists {ℓ} : {A : Type ℓ} → (A → A → Bool) → List A → A → Bool
exists same [] a = false
exists same (b ∷ keys) a = same b a || exists same keys a

unfoldable pub validate_rule_action : RuleAction → Bool
validate_rule_action a =
    if a.type == action_drop || a.type == action_forward
    then a.rewrite_mask == 0
    else (if not (a.type == action_rewrite)
        then false
        else not
            (a.rewrite_mask == 0 || not (bit_and a.rewrite_mask (2 ^ 8 - 1 - valid_mask) == 0)))

-- The loops over flows and routes, with the keys of the rules so far.
unfoldable pub validate_flows : List GoFlowRule → List GoFlowRule → Bool
validate_flows keys [] = true
validate_flows keys (f ∷ fs) =
    let rest = validate_flows (f ∷ keys) fs in
    if not (f.l4_proto == 6) && not (f.l4_proto == 17)
    then false
    else (if not (validate_rule_action f.action)
        then false
        else (if exists same_flow keys f then false else rest))

unfoldable pub go_mask : ℕ → ℕ
go_mask depth = if depth == 0 then 0 else u32 ((2 ^ 32 - 1) * 2 ^ (32 - depth))

unfoldable pub validate_routes : List GoRouteRule → List GoRouteRule → Bool
validate_routes keys [] = true
validate_routes keys (r ∷ rs) =
    let rest = validate_routes (r ∷ keys) rs in
    if r.depth == 0 || ltb 32 r.depth
    then false
    else (if not (bit_and r.prefix (go_mask r.depth) == r.prefix)
        then false
        else (if not (validate_rule_action r.action)
            then false
            else (if exists same_route keys r then false else rest)))

unfoldable pub validate_rules : RuleSnapshot → Bool
validate_rules s =
    if ltb max_flow_rules (length s.flows) || ltb max_route_rules (length s.routes)
    then false
    else (if not (validate_flows [] s.flows) then false else validate_routes [] s.routes)

-- `toNativeRules`, and the C structures that `newRuleArrays` fills from its result.
abbrev pub to_native_action : RuleAction → Action
to_native_action a = record {
  type = a.type;
  rewrite_mask = a.rewrite_mask;
  reserved = 0;
  src_ipv4 = a.src_ipv4;
  dst_ipv4 = a.dst_ipv4;
  src_port = a.src_port;
  dst_port = a.dst_port;
}

abbrev pub to_native_flow : GoFlowRule → FlowRule
to_native_flow f = record {
  src_ipv4 = f.src_ipv4;
  dst_ipv4 = f.dst_ipv4;
  src_port = f.src_port;
  dst_port = f.dst_port;
  l4_proto = f.l4_proto;
  reserved0 = 0;
  reserved1 = 0;
  reserved2 = 0;
  action = to_native_action f.action;
}

abbrev pub to_native_route : GoRouteRule → RouteRule
to_native_route r = record {
  prefix = r.prefix;
  depth = r.depth;
  reserved0 = 0;
  reserved1 = 0;
  reserved2 = 0;
  action = to_native_action r.action;
}

-- There is an array only where there are rules.
abbrev pub native_array {ℓ} : {A : Type ℓ} → List A → Option (List A)
native_array [] = none
native_array (a ∷ rest) = some (a ∷ rest)

abbrev pub native_arrays : RuleSnapshot → RuleArrays
native_arrays s = record {
  flows = native_array (map to_native_flow s.flows);
  flow_count = length s.flows;
  routes = native_array (map to_native_route s.routes);
  route_count = length s.routes;
}

abbrev pub is_nonempty {ℓ} : {A : Type ℓ} → List A → Bool
is_nonempty [] = false
is_nonempty (a ∷ rest) = true

-- `newRuleArrays`, with whether each array is granted; `none` for an error.
unfoldable pub new_rule_arrays : Bool → Bool → RuleSnapshot → Option RuleArrays
new_rule_arrays flows_granted routes_granted s =
    if ltb max_flow_rules (length s.flows) || ltb max_route_rules (length s.routes)
    then none
    else (if is_nonempty s.flows && not flows_granted
        then none
        else (if is_nonempty s.routes && not routes_granted then none else some (native_arrays s)))
