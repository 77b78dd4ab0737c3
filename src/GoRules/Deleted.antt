-- ===== src/GoRules/Deleted.antt =====
-- A rule set without one of its rules still passes validateRules.
use dpdk_high_speed_flow_rou.Prelude.{
  ◌≡◌, ◌≤◌, refl, Bool, true, false, List, [], ◌∷◌, length, some, ◌⊎◌, eq_of_some, none-ne_some,
  arith, Bool-cases, Option-cases, inl, inr,
}
use dpdk_high_speed_flow_rou.GoRules.{
  GoFlowRule, GoRouteRule, same_flow, same_route, exists, validate_flows, validate_routes,
}
use dpdk_high_speed_flow_rou.GoRules.Agreed.{validate_flows-cons, validate_routes-cons}
use dpdk_high_speed_flow_rou.GoRules.Runtime.{delete_first}

-- With fewer keys to compare with, a list still passes.
abbrev FewerKeys : {A : Type 0} → (A → A → Bool) → List A → List A → Type 0
FewerKeys {A} same few many = (a : A) → exists same many a ≡ false → exists same few a ≡ false

keep-FewerKeys :
    {A : Type 0} (same : A → A → Bool) (b : A) (few many : List A)
    → FewerKeys same few many
    → FewerKeys same (b ∷ few) (b ∷ many)
keep-FewerKeys same b few many h a e = ground (arith, h a)

drop-FewerKeys :
    {A : Type 0} (same : A → A → Bool) (b : A) (keys : List A) → FewerKeys same keys (b ∷ keys)
drop-FewerKeys same b keys a e = ground arith

validate_routes_nil : (keys : List GoRouteRule) → validate_routes keys [] ≡ true
unfolding validate_routes
validate_routes_nil keys = refl

validate_flows-FewerKeys :
    (few many fs : List GoFlowRule)
    → FewerKeys same_flow few many
    → validate_flows many fs ≡ true
    → validate_flows few fs ≡ true
unfolding validate_flows
validate_flows-FewerKeys few many [] h pass = refl
validate_flows-FewerKeys few many (f ∷ fs) h pass =
    let rest =
      validate_flows-FewerKeys (f ∷ few) (f ∷ many) fs (keep-FewerKeys same_flow f few many h)
        (ground arith) in
    ground (arith, rest, h f)

validate_routes-FewerKeys :
    (few many rs : List GoRouteRule)
    → FewerKeys same_route few many
    → validate_routes many rs ≡ true
    → validate_routes few rs ≡ true
validate_routes-FewerKeys few many [] h pass = validate_routes_nil few
validate_routes-FewerKeys few many (r ∷ rs) h pass =
    let (least, most, network, valid, unseen, others) = (validate_routes-cons many rs r).0 pass in
    (validate_routes-cons few rs r).1 (
      least,
      most,
      network,
      valid,
      h r unseen,
      validate_routes-FewerKeys (r ∷ few) (r ∷ many) rs (keep-FewerKeys same_route r few many h)
          others,
    )

-- A list without one of its rules still passes.
delete_first-cases :
    {A : Type 0} (same : A → A → Bool) (key a : A) (rest left : List A)
    → delete_first same key (a ∷ rest) ≡ some left
    → (rest ≡ left) ⊎ ((l : List A) × (delete_first same key rest ≡ some l) × (a ∷ l ≡ left))
delete_first-cases same key a rest left e = elim (Bool-cases (same a key)) [
  | inl found ↦ inl (eq_of_some (rw found at e))
  | inr other ↦ elim (Option-cases (delete_first same key rest)) [
    | inl gone ↦ absurd (none-ne_some (rw (other, gone) at e))
    | inr (l, is) ↦ inr (l, is, eq_of_some (rw (other, is) at e))
  ]
]

pub validate_flows_deleted :
    (key : GoFlowRule) (keys fs left : List GoFlowRule)
    → delete_first same_flow key fs ≡ some left
    → validate_flows keys fs ≡ true
    → validate_flows keys left ≡ true
validate_flows_deleted key keys [] left e pass = absurd (cc)
validate_flows_deleted key keys (f ∷ fs) left e pass =
    let (protocol, valid, unseen, others) = (validate_flows-cons keys fs f).0 pass in
    elim (delete_first-cases same_flow key f fs left e) [
      | inl same ↦
          rw (← same)
            (validate_flows-FewerKeys keys (f ∷ keys) fs (drop-FewerKeys same_flow f keys) others)
      | inr (l, is, same) ↦
          let rest = validate_flows_deleted key (f ∷ keys) fs l is others in
          rw (← same) ((validate_flows-cons keys l f).1 (protocol, valid, unseen, rest))
    ]

pub validate_routes_deleted :
    (key : GoRouteRule) (keys rs left : List GoRouteRule)
    → delete_first same_route key rs ≡ some left
    → validate_routes keys rs ≡ true
    → validate_routes keys left ≡ true
validate_routes_deleted key keys [] left e pass = absurd (cc)
validate_routes_deleted key keys (r ∷ rs) left e pass =
    let (least, most, network, valid, unseen, others) = (validate_routes-cons keys rs r).0 pass in
    elim (delete_first-cases same_route key r rs left e) [
      | inl same ↦
          rw (← same)
            (validate_routes-FewerKeys keys (r ∷ keys) rs (drop-FewerKeys same_route r keys) others)
      | inr (l, is, same) ↦
          let rest = validate_routes_deleted key (r ∷ keys) rs l is others in
          rw (← same)
            ((validate_routes-cons keys l r).1 (least, most, network, valid, unseen, rest))
    ]

pub length_deleted :
    {A : Type 0} (same : A → A → Bool) (key : A) (xs left : List A)
    → delete_first same key xs ≡ some left
    → length left ≤ length xs
length_deleted same key [] left e = absurd (cc)
length_deleted same key (x ∷ xs) left e = elim (delete_first-cases same key x xs left e) [
  | inl shorter ↦ rw (← shorter) (omega arith)
  | inr (l, is, longer) ↦ let rest = length_deleted same key xs l is in rw (← longer) (omega arith)
]
