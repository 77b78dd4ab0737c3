-- ===== src/Lookup/Chosen.antt =====
-- The action that the reference finds among admitted rules.
use dpdk_high_speed_flow_rou.Prelude.{
  ℕ, ◌≡◌, ◌≢◌, ◌⊎◌, inl, inr, Bool-cases, ◌&&◌, List, [], ◌∷◌, Option, none, some, All, arith, pos,
}
use dpdk_high_speed_flow_rou.Packet.{Meta}
use dpdk_high_speed_flow_rou.Rules.{
  Action, FlowRule, RouteRule, FlowKey, same_key, flow_key_of_rule, flow_key_from_meta,
  validate_action, action_drop, action_forward, action_rewrite,
}
use dpdk_high_speed_flow_rou.Tables.{covers}
use dpdk_high_speed_flow_rou.Lookup.Reference.{
  flow_action, route_action, no_shorter, find_flow, best_route, choose, reference,
}
use dpdk_high_speed_flow_rou.Snapshot.Valid.{IsFlowRule, IsRouteRule}

-- The three kinds of a valid action.
pub valid_kinds :
    (a : Action)
    → validate_action a ≡ pos 0
    → (a.type ≡ action_drop)
      ⊎ ((a.type ≡ action_forward) ⊎ ((a.type ≡ action_rewrite) × (a.rewrite_mask ≢ 0)))
unfolding validate_action
valid_kinds a h = ground arith

-- An action that passed the validation, where there is one.
abbrev IsValid : Option Action → Type 0
IsValid none = Unit {0}
IsValid (some a) = validate_action a ≡ pos 0

find_flow-IsValid :
    (fs : List FlowRule) (k : FlowKey) → All IsFlowRule fs → IsValid (find_flow fs k)
find_flow-IsValid [] k valid = tt
find_flow-IsValid (f ∷ fs) k valid = elim (Bool-cases (same_key (flow_key_of_rule f) k)) [
  | inl same ↦ rw same valid.0.action
  | inr other ↦ rw other (find_flow-IsValid fs k valid.1)
]

abbrev HasValid : Option RouteRule → Type 0
HasValid none = Unit {0}
HasValid (some r) = validate_action r.action ≡ pos 0

best_route-HasValid :
    (rs : List RouteRule) (ip : ℕ) → All IsRouteRule rs → HasValid (best_route rs ip)
best_route-HasValid [] ip valid = tt
best_route-HasValid (r ∷ rs) ip valid =
    let rest = best_route-HasValid rs ip valid.1 in
    elim (Bool-cases (covers r.prefix r.depth ip && no_shorter r (best_route rs ip))) [
      | inl taken ↦ rw taken valid.0.action
      | inr passed ↦ rw passed rest
    ]

choose_valid :
    (flow : Option Action) (route : Option RouteRule) (a : Action)
    → IsValid flow
    → HasValid route
    → (choose flow route ≡ flow_action a) ⊎ (choose flow route ≡ route_action a)
    → validate_action a ≡ pos 0
choose_valid (some b) route a f r (inl e) = let same : b ≡ a = cc in rw (← same) f
choose_valid (some b) route a f r (inr e) = absurd cc
choose_valid none (some q) a f r (inl e) = absurd cc
choose_valid none (some q) a f r (inr e) = let same : q.action ≡ a = cc in rw (← same) r
choose_valid none none a f r (inl e) = absurd cc
choose_valid none none a f r (inr e) = absurd cc

pub reference_valid :
    (fs : List FlowRule) (rs : List RouteRule) (meta : Meta) (a : Action)
    → All IsFlowRule fs
    → All IsRouteRule rs
    → (reference fs rs meta ≡ flow_action a) ⊎ (reference fs rs meta ≡ route_action a)
    → validate_action a ≡ pos 0
reference_valid fs rs meta a valid_flows valid_routes e =
    choose_valid (find_flow fs (flow_key_from_meta meta)) (best_route rs meta.dst_ipv4) a
      (find_flow-IsValid fs (flow_key_from_meta meta) valid_flows)
      (best_route-HasValid rs meta.dst_ipv4 valid_routes) e
