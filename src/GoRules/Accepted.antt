-- ===== src/GoRules/Accepted.antt =====
-- The rules that pass validateRules are those that the native build takes.
use mathlib.Core.Path.{subst}
use dpdk_high_speed_flow_rou.Prelude.{
  ℕ, suc, ◌^◌, ◌≤◌, ◌<◌, ◌≡◌, ◌↔◌, refl, ap, Bool, true, false, List, [], ◌∷◌, map, length,
  take_all, arith, ◌||◌, ltb, Bool-cases, inl, inr, none-ne_some, eq_of_some, some, sym, ◌∙◌, All,
  pos,
}
use dpdk_high_speed_flow_rou.Tables.{TableApi, TableLaws}
use dpdk_high_speed_flow_rou.Snapshot.Types.{World, Grants, missing, elements}
use dpdk_high_speed_flow_rou.Snapshot.Success.{Provided}
use dpdk_high_speed_flow_rou.Snapshot.Taken.{Taken}
use dpdk_high_speed_flow_rou.Snapshot.Proceeds.{IsGranted}
use dpdk_high_speed_flow_rou.Snapshot.Accepted.{Acceptable, snapshot_build-Acceptable}
use dpdk_high_speed_flow_rou.Control.{RuleArrays, build}
use dpdk_high_speed_flow_rou.GoRules.{
  GoRouteRule, RuleSnapshot, same_flow, same_route, validate_flows, validate_routes, validate_rules,
  to_native_flow, to_native_route, native_array, native_arrays, new_rule_arrays,
}
use dpdk_high_speed_flow_rou.GoRules.Agreed.{
  Fresh, SmallFlows, SmallRoutes, validate_flows-Good, validate_routes-Good,
}

module _ {A B : Type 0} (f : A → B) where
  length-map : (xs : List A) → length (map f xs) ≡ length xs
  length-map [] = refl
  length-map (x ∷ xs) = ap suc (length-map xs)

  native_elements : (xs : List A) → elements (native_array (map f xs)) (length xs) ≡ map f xs
  native_elements [] = refl
  native_elements (x ∷ xs) =
      take_all (length (x ∷ xs)) (f x ∷ map f xs) (omega (arith, length-map xs))

  native-Provided : (xs : List A) → Provided (native_array (map f xs)) (length xs)
  native-Provided [] = tt
  native-Provided (x ∷ xs) = omega (arith, length-map xs)

  native_there : (xs : List A) → missing (native_array (map f xs)) (length xs) ≡ false
  native_there [] = refl
  native_there (x ∷ xs) = ground arith

none-Fresh : {A : Type 0} (same : A → A → Bool) (xs : List A) → Fresh same [] xs
none-Fresh same [] = tt
none-Fresh same (x ∷ xs) = (refl, none-Fresh same xs)

words :
    (rs : List GoRouteRule) → SmallRoutes rs → All (λ r. r.prefix < 2 ^ 32) (map to_native_route rs)
words [] small = tt
words (r ∷ rs) small = (small.0.0, words rs small.1)

pub validate_rules-parts :
    (s : RuleSnapshot)
    → (validate_rules s ≡ true) ↔ (
        (length s.flows ≤ 1024)
        × (length s.routes ≤ 1024)
        × (validate_flows [] s.flows ≡ true)
        × (validate_routes [] s.routes ≡ true))
unfolding validate_rules
validate_rules-parts s =
    (λ h. (ground arith, ground arith, ground arith, ground arith), λ h. ground (arith, h))

module _ (s : RuleSnapshot) (small_flows : SmallFlows s.flows)
    (small_routes : SmallRoutes s.routes) where
  abbrev Passed : Type 0
  Passed =
      Acceptable (native_arrays s).flows (length s.flows) (native_arrays s).routes (length s.routes)

  validate_rules-Acceptable : (validate_rules s ≡ true) ↔ Passed
  validate_rules-Acceptable =
      let parts = validate_rules-parts s in
      let flows = validate_flows-Good [] s.flows small_flows in
      let routes = validate_routes-Good [] s.routes small_routes in
      (
        λ h.
            let (few_flows, few_routes, pass_flows, pass_routes) = parts.0 h in
            let good_flows = flows.0 pass_flows in
            let good_routes = routes.0 pass_routes in
            record {
              few_flows = few_flows;
              few_routes = few_routes;
              given_flows = native_there to_native_flow s.flows;
              given_routes = native_there to_native_route s.routes;
              valid_flows =
                  rw (native_elements to_native_flow s.flows) (good_flows.0, good_flows.1);
              valid_routes =
                  rw (native_elements to_native_route s.routes) (good_routes.0, good_routes.1);
            },
        λ c.
            let good_flows = rw (native_elements to_native_flow s.flows) at c.valid_flows in
            let good_routes = rw (native_elements to_native_route s.routes) at c.valid_routes in
            parts.1 (
              c.few_flows,
              c.few_routes,
              flows.1 (good_flows.0, good_flows.1, none-Fresh same_flow s.flows),
              routes.1 (good_routes.0, good_routes.1, none-Fresh same_route s.routes),
            ),
      )

  granted_arrays :
      (ltb 1024 (length s.flows) || ltb 1024 (length s.routes)) ≡ false
      → new_rule_arrays true true s ≡ some (native_arrays s)
  unfolding new_rule_arrays
  granted_arrays few = ground (arith, few)

  -- With its arrays granted, newRuleArrays gives the native arrays of a rule set within the limits.
  new_rule_arrays-some :
      (a : RuleArrays) → new_rule_arrays true true s ≡ some a → native_arrays s ≡ a
  unfolding new_rule_arrays
  new_rule_arrays-some a made =
      elim (Bool-cases (ltb 1024 (length s.flows) || ltb 1024 (length s.routes))) [
        | inl many ↦ absurd (none-ne_some (rw many at made))
        | inr few ↦ eq_of_some (sym (granted_arrays few) ∙ made)
      ]

  -- The two validations agree: let no allocation fail, and let the fields of the rules hold values of
  -- their types. Then newRuleArrays gives arrays for a rule set of the Go control, and the native
  -- build of them returns 0, exactly when the rule set passes validateRules and the new tables take
  -- the entries of its native rules: no call to test for or to add one of them fails.
  pub build-validate_rules :
      {api : TableApi} (laws : TableLaws api) (g : Grants) (generation : ℕ) (w : World)
      → IsGranted g
      → ((a : RuleArrays) × (new_rule_arrays true true s ≡ some a)
          × ((build api g a generation w).ret ≡ pos 0))
        ↔ ((validate_rules s ≡ true)
            × Taken api (map to_native_flow s.flows) (map to_native_route s.routes))
  build-validate_rules {api} laws g generation w given =
      let taken =
        snapshot_build-Acceptable laws g (native_arrays s).flows (length s.flows)
          (native_arrays s).routes (length s.routes) generation w given
          (native-Provided to_native_flow s.flows) (native-Provided to_native_route s.routes)
          (rw (native_elements to_native_route s.routes) (words s.routes small_routes)) in
      let same =
        rw (native_elements to_native_flow s.flows, native_elements to_native_route s.routes) at
          taken in
      (
        λ (a, made, e).
            let ok =
              subst (λ (b : RuleArrays). (build api g b generation w).ret ≡ pos 0)
                (sym (new_rule_arrays-some a made)) e in
            (validate_rules-Acceptable.1 (taken.0 ok).0, (same.0 ok).1),
        λ h.
            let c = validate_rules-Acceptable.0 h.0 in
            let few : (ltb 1024 (length s.flows) || ltb 1024 (length s.routes)) ≡ false =
              ground (arith, c.few_flows, c.few_routes) in
            (native_arrays s, granted_arrays few, same.1 (c, h.1)),
      )
