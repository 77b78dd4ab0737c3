-- ===== src/Binding.antt =====
-- dataplane/native/dp_binding.c: the arrays that the caller in Go allocates and fills. Whether an
-- allocation succeeds is an argument. A write out of bounds is a fault, `none`; the address of a
-- string is a number, and a null pointer `none`.
pub mod Arrays
use dpdk_high_speed_flow_rou.Prelude.{
  ℕ, Bool, List, Option, none, some, replicate, length, set, ltb, if◌then◌else◌,
}
use dpdk_high_speed_flow_rou.Rules.{Action, FlowRule, RouteRule}
use dpdk_high_speed_flow_rou.Snapshot.Types.{zero_action}

-- What `memset` and `calloc` leave of a rule.
abbrev pub zero_flow_rule : FlowRule
zero_flow_rule = record {
  src_ipv4 = 0;
  dst_ipv4 = 0;
  src_port = 0;
  dst_port = 0;
  l4_proto = 0;
  reserved0 = 0;
  reserved1 = 0;
  reserved2 = 0;
  action = zero_action;
}

abbrev pub zero_route_rule : RouteRule
zero_route_rule = record {
  prefix = 0;
  depth = 0;
  reserved0 = 0;
  reserved1 = 0;
  reserved2 = 0;
  action = zero_action;
}

-- `calloc`
abbrev pub zeroed {ℓ} : {A : Type ℓ} → Bool → ℕ → A → Option (List A)
zeroed granted count zero_value = if granted then some (replicate count zero_value) else none

-- `array[index] = value`
abbrev pub put {ℓ} : {A : Type ℓ} → List A → ℕ → A → Option (List A)
put array index value = if ltb index (length array) then some (set array index value) else none

unfoldable pub argv_alloc : Bool → ℕ → Option (List (Option ℕ))
argv_alloc granted count = zeroed granted count none

unfoldable pub argv_set : List (Option ℕ) → ℕ → ℕ → Option (List (Option ℕ))
argv_set argv index value = put argv index (some value)

unfoldable pub flow_rules_alloc : Bool → ℕ → Option (List FlowRule)
flow_rules_alloc granted count = zeroed granted count zero_flow_rule

unfoldable pub route_rules_alloc : Bool → ℕ → Option (List RouteRule)
route_rules_alloc granted count = zeroed granted count zero_route_rule

-- `dp_rule_action_set`, which clears the action first.
unfoldable pub rule_action_set : ℕ → ℕ → ℕ → ℕ → ℕ → ℕ → Action
rule_action_set type rewrite_mask src_ipv4 dst_ipv4 src_port dst_port = record zero_action {
  type = type;
  rewrite_mask = rewrite_mask;
  src_ipv4 = src_ipv4;
  dst_ipv4 = dst_ipv4;
  src_port = src_port;
  dst_port = dst_port;
}

-- The last arguments are those of the action, here taken together.
unfoldable pub flow_rule_set :
    List FlowRule → ℕ → ℕ → ℕ → ℕ → ℕ → ℕ → Action → Option (List FlowRule)
unfolding rule_action_set
flow_rule_set rules index src_ipv4 dst_ipv4 src_port dst_port l4_proto a =
    put rules index (record zero_flow_rule {
      src_ipv4 = src_ipv4;
      dst_ipv4 = dst_ipv4;
      src_port = src_port;
      dst_port = dst_port;
      l4_proto = l4_proto;
      action = rule_action_set a.type a.rewrite_mask a.src_ipv4 a.dst_ipv4 a.src_port a.dst_port;
    })

unfoldable pub route_rule_set : List RouteRule → ℕ → ℕ → ℕ → Action → Option (List RouteRule)
unfolding rule_action_set
route_rule_set rules index prefix depth a = put rules index (record zero_route_rule {
  prefix = prefix;
  depth = depth;
  action = rule_action_set a.type a.rewrite_mask a.src_ipv4 a.dst_ipv4 a.src_port a.dst_port;
})
