-- ===== src/GoRules/Agreed.antt =====
-- The validation of the Go control and that of the native build agree.
use dpdk_high_speed_flow_rou.Prelude.{
  ◌^◌, ◌≤◌, ◌<◌, ◌≡◌, ◌⊎◌, ◌↔◌, refl, Bool, true, false, List, [], ◌∷◌, none, map, arith, All, pos,
}
use dpdk_high_speed_flow_rou.Rules.{flow_key_of_rule, route_mask, has_host_bits, validate_action}
use dpdk_high_speed_flow_rou.Rules.Mask.{validate_action-IsAction, IsAction, high_bits8}
use dpdk_high_speed_flow_rou.Lookup.Reference.{find_flow}
use dpdk_high_speed_flow_rou.Snapshot.Valid.{IsFlowRule, IsRouteRule, Distinct}
use dpdk_high_speed_flow_rou.Snapshot.Unique.{lists_prefix, AreUnique}
use dpdk_high_speed_flow_rou.GoRules.{
  RuleAction, GoFlowRule, GoRouteRule, same_flow, same_route, exists, validate_rule_action,
  validate_flows, go_mask, validate_routes, to_native_action, to_native_flow, to_native_route,
}

validate_rule_action-native :
    (a : RuleAction)
    → a.rewrite_mask < 256
    → (validate_rule_action a ≡ true) ↔ (validate_action (to_native_action a) ≡ pos 0)
unfolding validate_rule_action
validate_rule_action-native a h =
    let (native, other) = validate_action-IsAction (to_native_action a) h in
    (
      λ e. native.1 (ground (arith, high_bits8 a.rewrite_mask h)),
      λ e.
          let is : IsAction (to_native_action a) = native.0 e in
          ground (arith, is, high_bits8 a.rewrite_mask h),
    )

-- The keys of the rules are not among those of others.
abbrev pub Fresh : {A : Type 0} → (A → A → Bool) → List A → List A → Type 0
Fresh same keys = All (λ f. exists same keys f ≡ false)

Fresh-flows :
    (f : GoFlowRule) (keys fs : List GoFlowRule)
    → Fresh same_flow (f ∷ keys) fs ↔ (
        Fresh same_flow keys fs
        × (find_flow (map to_native_flow fs) (flow_key_of_rule (to_native_flow f)) ≡ none))
unfolding flow_key_of_rule
Fresh-flows f keys [] = (λ h. (tt, refl), λ h. tt)
Fresh-flows f keys (g ∷ fs) =
    let rest = Fresh-flows f keys fs in
    (
      λ h. let (others, apart) = rest.0 h.1 in ((ground arith, others), ground (arith, apart)),
      λ h. (ground arith, rest.1 (h.0.1, ground arith)),
    )

Fresh-routes :
    (r : GoRouteRule) (keys rs : List GoRouteRule)
    → Fresh same_route (r ∷ keys) rs ↔ (
        Fresh same_route keys rs × (lists_prefix (map to_native_route rs) r.prefix r.depth ≡ false))
Fresh-routes r keys [] = (λ h. (tt, refl), λ h. tt)
Fresh-routes r keys (p ∷ rs) =
    let rest = Fresh-routes r keys rs in
    (
      λ h. let (others, apart) = rest.0 h.1 in ((ground arith, others), ground (arith, apart)),
      λ h. (ground arith, rest.1 (h.0.1, ground arith)),
    )

-- What a list of flows is that passes.
abbrev pub GoodFlows : List GoFlowRule → List GoFlowRule → Type 0
GoodFlows keys fs =
    All IsFlowRule (map to_native_flow fs)
    × Distinct (map to_native_flow fs)
    × Fresh same_flow keys fs

abbrev pub SmallFlows : List GoFlowRule → Type 0
SmallFlows fs = All (λ f. f.action.rewrite_mask < 2 ^ 8) fs

pub validate_flows-cons :
    (keys fs : List GoFlowRule) (f : GoFlowRule)
    → (validate_flows keys (f ∷ fs) ≡ true) ↔ (
        ((f.l4_proto ≡ 6) ⊎ (f.l4_proto ≡ 17))
        × (validate_rule_action f.action ≡ true)
        × (exists same_flow keys f ≡ false)
        × (validate_flows (f ∷ keys) fs ≡ true))
unfolding validate_flows
validate_flows-cons keys fs f =
    (λ h. (ground arith, ground arith, ground arith, ground arith), λ h. ground (arith, h))

pub validate_flows-Good :
    (keys fs : List GoFlowRule)
    → SmallFlows fs
    → (validate_flows keys fs ≡ true) ↔ GoodFlows keys fs
unfolding validate_flows
validate_flows-Good keys [] small = (λ h. (tt, tt, tt), λ h. refl)
validate_flows-Good keys (f ∷ fs) small =
    let first = validate_flows-cons keys fs f in
    let rest = validate_flows-Good (f ∷ keys) fs small.1 in
    let apart = Fresh-flows f keys fs in
    let action = validate_rule_action-native f.action small.0 in
    (
      λ h.
          let (protocol, valid, unseen, others) = first.0 h in
          let (all, distinct, fresh) = rest.0 others in
          let (free, single) = apart.0 fresh in
          (
            (
              record {
                protocol = protocol;
                reserved = (refl, refl, refl);
                action = action.0 valid;
              },
              all,
            ),
            (single, distinct),
            (unseen, free),
          ),
      λ g. first.1 (
        g.0.0.protocol,
        action.1 g.0.0.action,
        g.2.0,
        rest.1 (g.0.1, g.1.1, apart.1 (g.2.1, g.1.0)),
      ),
    )

abbrev pub GoodRoutes : List GoRouteRule → List GoRouteRule → Type 0
GoodRoutes keys rs =
    All IsRouteRule (map to_native_route rs)
    × AreUnique (map to_native_route rs)
    × Fresh same_route keys rs

abbrev pub SmallRoutes : List GoRouteRule → Type 0
SmallRoutes rs = All (λ r. (r.prefix < 2 ^ 32) × (r.action.rewrite_mask < 2 ^ 8)) rs

pub validate_routes-cons :
    (keys rs : List GoRouteRule) (r : GoRouteRule)
    → (validate_routes keys (r ∷ rs) ≡ true) ↔ (
        (1 ≤ r.depth)
        × (r.depth ≤ 32)
        × (has_host_bits (to_native_route r) ≡ false)
        × (validate_rule_action r.action ≡ true)
        × (exists same_route keys r ≡ false)
        × (validate_routes (r ∷ keys) rs ≡ true))
unfolding validate_routes go_mask has_host_bits route_mask
validate_routes-cons keys rs r = (
  λ h. (ground arith, ground arith, ground arith, ground arith, ground arith, ground arith),
  λ h. ground (arith, h),
)

pub validate_routes-Good :
    (keys rs : List GoRouteRule)
    → SmallRoutes rs
    → (validate_routes keys rs ≡ true) ↔ GoodRoutes keys rs
unfolding validate_routes
validate_routes-Good keys [] small = (λ h. (tt, tt, tt), λ h. refl)
validate_routes-Good keys (r ∷ rs) small =
    let first = validate_routes-cons keys rs r in
    let rest = validate_routes-Good (r ∷ keys) rs small.1 in
    let apart = Fresh-routes r keys rs in
    let action = validate_rule_action-native r.action small.0.1 in
    (
      λ h.
          let (least, most, network, valid, unseen, others) = first.0 h in
          let (all, unique, fresh) = rest.0 others in
          let (free, single) = apart.0 fresh in
          (
            (
              record {
                least = least;
                most = most;
                reserved = (refl, refl, refl);
                network = network;
                action = action.0 valid;
              },
              all,
            ),
            (single, unique),
            (unseen, free),
          ),
      λ g.
          let v = g.0.0 in
          first.1 (
            v.least,
            v.most,
            v.network,
            action.1 v.action,
            g.2.0,
            rest.1 (g.0.1, g.1.1, apart.1 (g.2.1, g.1.0)),
          ),
    )
