-- ===== src/GoRules/Kept.antt =====
-- The rules of the Go control stay valid.
use dpdk_high_speed_flow_rou.Prelude.{
  ◌≡◌, refl, sym, ◌∙◌, true, false, List, [], ◌∷◌, ◌++◌, Option, none, some, if◌then◌else◌, arith,
  Bool-cases, Option-cases, inl, inr,
}
use dpdk_high_speed_flow_rou.GoRules.{
  GoFlowRule, GoRouteRule, RuleSnapshot, same_flow, same_route, exists, validate_rules,
}
use dpdk_high_speed_flow_rou.GoRules.Accepted.{validate_rules-parts}
use dpdk_high_speed_flow_rou.GoRules.Runtime.{
  Runtime, Publish, delete_first, publish_snapshot_locked, publish_valid, replace_rules, add_flow,
  delete_flow, flows_left, routes_left, add_route, delete_route, Call, replaces, adds_flow,
  deletes_flow, adds_route, deletes_route, answer,
}
use dpdk_high_speed_flow_rou.GoRules.Deleted.{
  validate_flows_deleted, validate_routes_deleted, length_deleted,
}

-- A rule set that passes, for a call that may publish it.
abbrev Passes : RuleSnapshot → Type 0
Passes s = validate_rules s ≡ true

-- The publication that refuses what does not pass.
abbrev pub guarded : Publish → Publish
guarded publish s = if validate_rules s then publish s else none

-- What a call keeps, and that it publishes nothing but what passes.
abbrev pub Keeps : Publish → Call → Runtime → Type 0
Keeps publish call r =
    (validate_rules (answer publish call r).1.current_rules ≡ true)
    × (answer publish call r ≡ answer (guarded publish) call r)

publish_valid_passed :
    (publish : Publish) (s : RuleSnapshot) (r : Runtime)
    → Passes s
    → publish_valid publish s r ≡ publish_snapshot_locked publish s r
unfolding publish_valid
publish_valid_passed publish s r pass = rw pass refl

publish_valid_failed :
    (publish : Publish) (s : RuleSnapshot) (r : Runtime)
    → validate_rules s ≡ false
    → publish_valid publish s r ≡ (false, r)
unfolding publish_valid
publish_valid_failed publish s r bad = rw bad refl

module _ (publish : Publish) (r : Runtime) (now : Passes r.current_rules) where
  publish_snapshot_locked-Passes :
      (s : RuleSnapshot)
      → Passes s
      → Passes (publish_snapshot_locked publish s r).1.current_rules
        × (publish_snapshot_locked publish s r ≡ publish_snapshot_locked (guarded publish) s r)
  unfolding publish_snapshot_locked
  publish_snapshot_locked-Passes s pass = elim (Bool-cases r.rules_open) [
    | inl open_now ↦ elim (Option-cases (publish s)) [
      | inl e ↦ rw (open_now, pass, e) (now, refl)
      | inr (g, e) ↦ rw (open_now, pass, e) (pass, refl)
    ]
    | inr shut ↦ rw shut (now, refl)
  ]

  publish_valid-Passes :
      (s : RuleSnapshot)
      → Passes (publish_valid publish s r).1.current_rules
        × (publish_valid publish s r ≡ publish_valid (guarded publish) s r)
  publish_valid-Passes s = elim (Bool-cases (validate_rules s)) [
    | inl pass ↦
        let (kept, same) = publish_snapshot_locked-Passes s pass in
        (
          rw (publish_valid_passed publish s r pass) kept,
          publish_valid_passed publish s r pass
              ∙ same
              ∙ sym (publish_valid_passed (guarded publish) s r pass),
        )
    | inr bad ↦ (
      rw (publish_valid_failed publish s r bad) now,
      publish_valid_failed publish s r bad ∙ sym (publish_valid_failed (guarded publish) s r bad),
    )
  ]

  flows_left-Passes :
      (key : GoFlowRule) (left : Option (List GoFlowRule))
      → delete_first same_flow key r.current_rules.flows ≡ left
      → Passes (flows_left publish left r).1.current_rules
        × (flows_left publish left r ≡ flows_left (guarded publish) left r)
  unfolding flows_left
  flows_left-Passes key none e = (now, refl)
  flows_left-Passes key (some left) e =
      let (few_flows, few_routes, flows, routes) = (validate_rules-parts r.current_rules).0 now in
      let shorter = length_deleted same_flow key r.current_rules.flows left e in
      publish_snapshot_locked-Passes (record r.current_rules { flows = left })
        ((validate_rules-parts (record r.current_rules { flows = left })).1 (
          omega arith,
          few_routes,
          validate_flows_deleted key [] r.current_rules.flows left e flows,
          routes,
        ))

  delete_flow-Keeps : (key : GoFlowRule) → Keeps publish (deletes_flow key) r
  unfolding delete_flow
  delete_flow-Keeps key = flows_left-Passes key _ refl

  routes_left-Passes :
      (key : GoRouteRule) (left : Option (List GoRouteRule))
      → delete_first same_route key r.current_rules.routes ≡ left
      → Passes (routes_left publish left r).1.current_rules
        × (routes_left publish left r ≡ routes_left (guarded publish) left r)
  unfolding routes_left
  routes_left-Passes key none e = (now, refl)
  routes_left-Passes key (some left) e =
      let (few_flows, few_routes, flows, routes) = (validate_rules-parts r.current_rules).0 now in
      let shorter = length_deleted same_route key r.current_rules.routes left e in
      publish_snapshot_locked-Passes (record r.current_rules { routes = left })
        ((validate_rules-parts (record r.current_rules { routes = left })).1 (
          few_flows,
          omega arith,
          flows,
          validate_routes_deleted key [] r.current_rules.routes left e routes,
        ))

  delete_route-Keeps : (key : GoRouteRule) → Keeps publish (deletes_route key) r
  unfolding delete_route
  delete_route-Keeps key = routes_left-Passes key _ refl

  add_flow-Keeps : (rule : GoFlowRule) → Keeps publish (adds_flow rule) r
  unfolding add_flow
  add_flow-Keeps rule = elim (Bool-cases (exists same_flow r.current_rules.flows rule)) [
    | inl e ↦ rw e (now, refl)
    | inr e ↦ rw e (
        publish_valid-Passes
          (record r.current_rules { flows = r.current_rules.flows ++ (rule ∷ []) }))
  ]

  add_route-Keeps : (rule : GoRouteRule) → Keeps publish (adds_route rule) r
  unfolding add_route
  add_route-Keeps rule = elim (Bool-cases (exists same_route r.current_rules.routes rule)) [
    | inl e ↦ rw e (now, refl)
    | inr e ↦ rw e (
        publish_valid-Passes
          (record r.current_rules { routes = r.current_rules.routes ++ (rule ∷ []) }))
  ]

  replace_rules-Keeps : (snapshot : RuleSnapshot) → Keeps publish (replaces snapshot) r
  unfolding replace_rules
  replace_rules-Keeps snapshot = publish_valid-Passes snapshot

-- Whatever a call to the Go control is, and whatever becomes of the native publication: the rules that
-- the control keeps pass validateRules after it, where they passed before. A deletion, which publishes
-- without validating, is no exception: the call would come to the same if all that does not pass were
-- refused.
pub answer-Keeps :
    (publish : Publish) (call : Call) (r : Runtime)
    → validate_rules r.current_rules ≡ true
    → (validate_rules (answer publish call r).1.current_rules ≡ true)
      × (answer publish call r ≡ answer (guarded publish) call r)
answer-Keeps publish (replaces snapshot) r now = replace_rules-Keeps publish r now snapshot
answer-Keeps publish (adds_flow rule) r now = add_flow-Keeps publish r now rule
answer-Keeps publish (deletes_flow key) r now = delete_flow-Keeps publish r now key
answer-Keeps publish (adds_route rule) r now = add_route-Keeps publish r now rule
answer-Keeps publish (deletes_route key) r now = delete_route-Keeps publish r now key
