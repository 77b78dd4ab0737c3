-- ===== src/Examples/GoControl.antt =====
-- The Go control with two flows and a route, of which the first flow is deleted.
use dpdk_high_speed_flow_rou.Prelude.{ℕ, ◌≡◌, ◌↔◌, refl, true, [], ◌∷◌, map, some, arith, pos}
use dpdk_high_speed_flow_rou.Tables.Assoc.{assoc_api, assoc-TableLaws}
use dpdk_high_speed_flow_rou.Snapshot.Taken.{Taken}
use dpdk_high_speed_flow_rou.Control.{RuleArrays, build}
use dpdk_high_speed_flow_rou.GoRules.{
  RuleAction, GoFlowRule, RuleSnapshot, validate_rule_action, validate_flows, go_mask,
  validate_routes, validate_rules, new_rule_arrays, to_native_flow, to_native_route,
}
use dpdk_high_speed_flow_rou.GoRules.Accepted.{build-validate_rules}
use dpdk_high_speed_flow_rou.GoRules.Runtime.{Runtime, Publish, deletes_flow, answer}
use dpdk_high_speed_flow_rou.GoRules.Kept.{guarded, answer-Keeps}
use dpdk_high_speed_flow_rou.Examples.Data.{world, all_granted}

abbrev plain : ℕ → RuleAction
plain t = record {
  type = t;
  rewrite_mask = 0;
  src_ipv4 = 0;
  dst_ipv4 = 0;
  src_port = 0;
  dst_port = 0;
}

abbrev first : GoFlowRule
first = record {
  src_ipv4 = 0x0a000001;
  dst_ipv4 = 0x0a000002;
  src_port = 1234;
  dst_port = 80;
  l4_proto = 6;
  action = plain 1;
}

abbrev rules : RuleSnapshot
rules = record {
  flows = first ∷ record first { l4_proto = 17 } ∷ [];
  routes = record { prefix = 0x0a000000; depth = 8; action = plain 0 } ∷ [];
}

rules_valid : validate_rules rules ≡ true
unfolding validate_rules validate_flows validate_routes validate_rule_action go_mask
rules_valid = refl

build-validate_rules_example :
    ((a : RuleArrays) × (new_rule_arrays true true rules ≡ some a)
      × ((build assoc_api all_granted a 1 world).ret ≡ pos 0))
    ↔ ((validate_rules rules ≡ true)
        × Taken assoc_api (map to_native_flow rules.flows) (map to_native_route rules.routes))
build-validate_rules_example =
    build-validate_rules rules (omega arith, (omega arith, tt)) ((omega arith, omega arith), tt)
      assoc-TableLaws all_granted 1 world (refl, refl, refl, refl)

-- The native publication gives generation 2.
abbrev publish : Publish
publish s = some 2

abbrev runtime : Runtime
runtime = record { rules_open = true; current_rules = rules; generation = 1 }

answer-Keeps_example :
    (validate_rules (answer publish (deletes_flow first) runtime).1.current_rules ≡ true)
    × (answer publish (deletes_flow first) runtime
        ≡ answer (guarded publish) (deletes_flow first) runtime)
answer-Keeps_example = answer-Keeps publish (deletes_flow first) runtime rules_valid
