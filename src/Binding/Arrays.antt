-- ===== src/Binding/Arrays.antt =====
-- Arrays that are allocated and then filled from the first element to the last.
use mathlib.Core.List.{append_assoc}
use dpdk_high_speed_flow_rou.Prelude.{
  ℕ, suc, ◌≡◌, refl, true, List, [], ◌∷◌, ◌++◌, map, Option, none, some, replicate, length, arith,
  ◌>>=◌, length-append,
}
use dpdk_high_speed_flow_rou.Rules.{Action, FlowRule, RouteRule}
use dpdk_high_speed_flow_rou.Binding.{
  put, zeroed, argv_alloc, argv_set, flow_rules_alloc, route_rules_alloc, flow_rule_set,
  route_rule_set,
}

module _ {A B : Type 0} (store : List A → ℕ → B → Option (List A)) where
  -- The caller's loop over its own list.
  abbrev pub fill : List B → ℕ → List A → Option (List A)
  fill [] index array = some array
  fill (b ∷ bs) index array = do next ← store array index b; fill bs (suc index) next

put-append :
    {A : Type 0} (done : List A) (z v : A) (rest : List A)
    → put (done ++ (z ∷ rest)) (length done) v ≡ some (done ++ (v ∷ rest))
put-append [] z v rest = ground arith
put-append (x ∷ done) z v rest = ground (arith, put-append done z v rest)

module _ {A B : Type 0} (store : List A → ℕ → B → Option (List A)) (f : B → A)
    (stores : (array : List A) (i : ℕ) (b : B) → store array i b ≡ put array i (f b)) (z : A) where
  fill-append :
      (bs : List B) (done : List A)
      → fill store bs (length done) (done ++ replicate (length bs) z) ≡ some (done ++ map f bs)
  fill-append [] done = refl
  fill-append (b ∷ bs) done =
      let v = f b in
      let rest = replicate (length bs) z in
      let one_more : length (done ++ (v ∷ [])) ≡ suc (length done) =
        omega (arith, length-append done (v ∷ [])) in
      let others = fill-append bs (done ++ (v ∷ [])) in
      let next =
        rw (one_more, append_assoc done (v ∷ []) rest, append_assoc done (v ∷ []) (map f bs)) at
          others in
      rw (stores (done ++ (z ∷ rest)) (length done) b, put-append done z v rest) next

  fill-zeroed : (bs : List B) → (zeroed true (length bs) z >>= fill store bs 0) ≡ some (map f bs)
  fill-zeroed bs = fill-append bs []

-- A rule without what the setters leave out: its reserved bytes are zero.
abbrev pub cleared_action : Action → Action
cleared_action a = record a { reserved = 0 }

abbrev pub cleared_flow : FlowRule → FlowRule
cleared_flow r = record r {
  reserved0 = 0;
  reserved1 = 0;
  reserved2 = 0;
  action = cleared_action r.action;
}

abbrev pub cleared_route : RouteRule → RouteRule
cleared_route r = record r {
  reserved0 = 0;
  reserved1 = 0;
  reserved2 = 0;
  action = cleared_action r.action;
}

abbrev pub write_flow : List FlowRule → ℕ → FlowRule → Option (List FlowRule)
write_flow rules i r =
    flow_rule_set rules i r.src_ipv4 r.dst_ipv4 r.src_port r.dst_port r.l4_proto r.action

abbrev pub write_route : List RouteRule → ℕ → RouteRule → Option (List RouteRule)
write_route rules i r = route_rule_set rules i r.prefix r.depth r.action

-- An array with room for the given strings, or rules, that is filled with them in order holds exactly
-- these, in order, with the reserved bytes of each rule at zero. No write leaves the array.
pub fill-flow_rules_alloc :
    (strings : List ℕ) (flows : List FlowRule) (routes : List RouteRule)
    → ((argv_alloc true (length strings) >>= fill argv_set strings 0)
        ≡ some (map (λ s. some s) strings))
      × ((flow_rules_alloc true (length flows) >>= fill write_flow flows 0)
          ≡ some (map cleared_flow flows))
      × ((route_rules_alloc true (length routes) >>= fill write_route routes 0)
          ≡ some (map cleared_route routes))
unfolding argv_alloc argv_set flow_rules_alloc route_rules_alloc flow_rule_set route_rule_set
fill-flow_rules_alloc strings flows routes = (
  fill-zeroed argv_set (λ s. some s) (λ array i s. refl) none strings,
  fill-zeroed write_flow cleared_flow (λ array i r. refl) _ flows,
  fill-zeroed write_route cleared_route (λ array i r. refl) _ routes,
)
