-- ===== src/GoRules/Runtime.antt =====
-- The operations of `Runtime` in control/dataplane/rules.go, each with `rulesMu` held throughout. The
-- native publication is a parameter: it gives the generation, or fails. The Boolean says whether the
-- error is nil.
use dpdk_high_speed_flow_rou.Prelude.{
  ℕ, Bool, true, false, not, List, [], ◌∷◌, ◌++◌, Option, none, some, if◌then◌else◌,
}
use dpdk_high_speed_flow_rou.GoRules.{
  GoFlowRule, GoRouteRule, RuleSnapshot, same_flow, same_route, exists, validate_rules,
}

pub record Runtime : Type 0 where
  pub rules_open : Bool
  pub current_rules : RuleSnapshot
  pub generation : ℕ

abbrev pub Publish : Type 0
Publish = RuleSnapshot → Option ℕ

-- The list without its first element of the key, if there is one.
abbrev pub delete_first : {A : Type 0} → (A → A → Bool) → A → List A → Option (List A)
delete_first same key [] = none
delete_first same key (a ∷ rest) =
    let later = delete_first same key rest in
    if same a key then some rest else elim later [ none ↦ none | some left ↦ some (a ∷ left) ]

-- A call of the control's interface.
pub data Call : Type 0 where
  replaces : RuleSnapshot → Call
  adds_flow deletes_flow : GoFlowRule → Call
  adds_route deletes_route : GoRouteRule → Call

module _ (publish : Publish) where
  -- `publishSnapshotLocked`
  unfoldable pub publish_snapshot_locked : RuleSnapshot → Runtime → Bool × Runtime
  publish_snapshot_locked snapshot r =
      if not r.rules_open then (false, r) else elim (publish snapshot) [
        | none ↦ (false, r)
        | some generation ↦ (true, record r { current_rules = snapshot; generation = generation })
      ]

  -- What follows once the candidate is made.
  unfoldable pub publish_valid : RuleSnapshot → Runtime → Bool × Runtime
  unfolding publish_snapshot_locked
  publish_valid candidate r =
      if not (validate_rules candidate) then (false, r) else publish_snapshot_locked candidate r

  unfoldable pub replace_rules : RuleSnapshot → Runtime → Bool × Runtime
  unfolding publish_valid
  replace_rules snapshot r = publish_valid snapshot r

  unfoldable pub add_flow : GoFlowRule → Runtime → Bool × Runtime
  unfolding publish_valid
  add_flow rule r =
      if exists same_flow r.current_rules.flows rule
      then (false, r)
      else publish_valid (record r.current_rules { flows = r.current_rules.flows ++ (rule ∷ []) }) r

  -- What is published without the rule of a key; the key is given by a rule that has it.
  unfoldable pub flows_left : Option (List GoFlowRule) → Runtime → Bool × Runtime
  unfolding publish_snapshot_locked
  flows_left none r = (false, r)
  flows_left (some left) r = publish_snapshot_locked (record r.current_rules { flows = left }) r

  unfoldable pub delete_flow : GoFlowRule → Runtime → Bool × Runtime
  unfolding flows_left
  delete_flow key r = flows_left (delete_first same_flow key r.current_rules.flows) r

  unfoldable pub add_route : GoRouteRule → Runtime → Bool × Runtime
  unfolding publish_valid
  add_route rule r =
      if exists same_route r.current_rules.routes rule
      then (false, r)
      else publish_valid (record r.current_rules { routes = r.current_rules.routes ++ (rule ∷ []) })
          r

  unfoldable pub routes_left : Option (List GoRouteRule) → Runtime → Bool × Runtime
  unfolding publish_snapshot_locked
  routes_left none r = (false, r)
  routes_left (some left) r = publish_snapshot_locked (record r.current_rules { routes = left }) r

  unfoldable pub delete_route : GoRouteRule → Runtime → Bool × Runtime
  unfolding routes_left
  delete_route key r = routes_left (delete_first same_route key r.current_rules.routes) r

  abbrev pub answer : Call → Runtime → Bool × Runtime
  answer (replaces snapshot) r = replace_rules snapshot r
  answer (adds_flow rule) r = add_flow rule r
  answer (deletes_flow key) r = delete_flow key r
  answer (adds_route rule) r = add_route rule r
  answer (deletes_route key) r = delete_route key r
