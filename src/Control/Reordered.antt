-- ===== src/Control/Reordered.antt =====
-- The order of the rules in the caller's arrays, for dp_snapshot_build and the lookups that follow.
use mathlib.Core.List.{Perm, Permᴰ}
use mathlib.Core.Logic.{∥∥₁_elim}
use mathlib.Core.Quot
use native.Mathlib.Nat.{ℕ_set}
use dpdk_high_speed_flow_rou.Prelude.{
  ℕ, ◌^◌, ◌<◌, ◌≡◌, ◌↔◌, refl, false, length, suc, sym, ◌∙◌, ap, List, [], ◌∷◌, some, All, ℤ, pos,
  arith,
}
use dpdk_high_speed_flow_rou.Packet.{Meta}
use dpdk_high_speed_flow_rou.Rules.{FlowRule, RouteRule}
use dpdk_high_speed_flow_rou.Rules.Mask.{has_host_bits_iff}
use dpdk_high_speed_flow_rou.Tables.{TableApi, TableLaws}
use dpdk_high_speed_flow_rou.Snapshot.Types.{World, Grants, Snapshot, elements, slots, missing}
use dpdk_high_speed_flow_rou.Snapshot.Valid.{IsFlowRule, IsRouteRule}
use dpdk_high_speed_flow_rou.Snapshot.Success.{Provided, length-elements}
use dpdk_high_speed_flow_rou.Snapshot.Admitted.{snapshot_build-IsFlowRule}
use dpdk_high_speed_flow_rou.Snapshot.Taken.{Taken}
use dpdk_high_speed_flow_rou.Snapshot.Proceeds.{IsGranted}
use dpdk_high_speed_flow_rou.Snapshot.Accepted.{Acceptable, snapshot_build-Acceptable}
use dpdk_high_speed_flow_rou.Lookup.{lookup_packet}
use dpdk_high_speed_flow_rou.Lookup.RuleSet.{Config, RuleSet, SameRules, Choice-set, decide}
use dpdk_high_speed_flow_rou.Lookup.Refine.{resolve}
use dpdk_high_speed_flow_rou.Lookup.Configured.{lookup_packet-snapshot_build}
use dpdk_high_speed_flow_rou.Lookup.Order.{All-perm, Distinct-perm, AreUnique-perm, IsNetwork}
use dpdk_high_speed_flow_rou.Control.{RuleArrays, build}

-- The rules of the arrays.
abbrev pub flows_of : RuleArrays → List FlowRule
flows_of r = elements r.flows r.flow_count

abbrev pub routes_of : RuleArrays → List RouteRule
routes_of r = elements r.routes r.route_count

-- The arrays that are counted are there, of the stated lengths, and hold values of their C types.
pub record IsPresent (r : RuleArrays) : Type 0 where
  pub flows : Provided r.flows r.flow_count
  pub routes : Provided r.routes r.route_count
  pub flows_there : missing r.flows r.flow_count ≡ false
  pub routes_there : missing r.routes r.route_count ≡ false
  pub words : All (λ r. r.prefix < 2 ^ 32) (routes_of r)

-- The same rules, in any order.
abbrev pub Reordered : RuleArrays → RuleArrays → Type 0
Reordered a b = Perm (flows_of a) (flows_of b) × Perm (routes_of a) (routes_of b)

routes_networks :
    (rs : List RouteRule) → All IsRouteRule rs → All (λ r. r.prefix < 2 ^ 32) rs → All IsNetwork rs
routes_networks [] v words = tt
routes_networks (r ∷ rs) v words =
    ((has_host_bits_iff r words.0 v.0.most).0 v.0.network, routes_networks rs v.1 words.1)

length-perm {ℓ} : {A : Type ℓ} {xs ys : List A} → Permᴰ xs ys → length xs ≡ length ys
length-perm Permᴰ.nil = refl
length-perm (Permᴰ.cons e p) = ap suc (length-perm p)
length-perm (Permᴰ.swap e f) = refl
length-perm (Permᴰ.trans p q) = length-perm p ∙ length-perm q

ℤ_set : IsSet ℤ
ℤ_set = hlevel ℕ_set

module _ {api : TableApi} (laws : TableLaws api) where
  -- The set of rules that a build which succeeds has taken over.
  config :
      (g : Grants) (r : RuleArrays) (generation : ℕ) (w : World) (s : Snapshot api)
      → IsPresent r
      → (build api g r generation w).result ≡ some s
      → Config
  config g r generation w s given h =
      let valid =
        snapshot_build-IsFlowRule laws g r.flows r.flow_count r.routes r.route_count generation w s
          given.flows given.routes given.words h in
      record {
        flows = flows_of r;
        routes = routes_of r;
        distinct = valid.1;
        networks = routes_networks (routes_of r) valid.2 given.words;
        unique = valid.3;
      }

  -- A lookup decides as the set of rules does.
  lookup_packet-decide :
      (g : Grants) (r : RuleArrays) (generation : ℕ) (w : World) (s : Snapshot api) (meta : Meta)
      (given : IsPresent r)
      → meta.dst_ipv4 < 2 ^ 32
      → (h : (build api g r generation w).result ≡ some s)
      → resolve (slots s.actions) (lookup_packet api meta (some s))
        ≡ some (decide (Quot.mk (config g r generation w s given h)) meta)
  unfolding decide config
  lookup_packet-decide g r generation w s meta given word h =
      lookup_packet-snapshot_build laws g r.flows r.flow_count r.routes r.route_count generation w s
        meta given.flows given.routes given.words word h

  -- Let two builds succeed on arrays that hold the same rules, in any order. Then each lookup comes
  -- to the same decision on both snapshots, and to the same action, read from the own array.
  pub lookup_packet-Reordered :
      (g h : Grants) (a b : RuleArrays) (m n : ℕ) (v w : World) (s t : Snapshot api) (meta : Meta)
      → IsPresent a
      → IsPresent b
      → Reordered a b
      → meta.dst_ipv4 < 2 ^ 32
      → (build api g a m v).result ≡ some s
      → (build api h b n w).result ≡ some t
      → resolve (slots s.actions) (lookup_packet api meta (some s))
        ≡ resolve (slots t.actions) (lookup_packet api meta (some t))
  unfolding config
  lookup_packet-Reordered g h a b m n v w s t meta ga gb (p, q) word hs ht =
      let left = lookup_packet-decide g a m v s meta ga word hs in
      let right = lookup_packet-decide h b n w t meta gb word ht in
      ∥∥₁_elim p (hlevel Choice-set) (λ p₁. ∥∥₁_elim q (hlevel Choice-set) (λ q₁.
        left
        ∙ ap (λ (x : RuleSet). some (decide x meta)) (Quot.sound {r = SameRules} (p₁, q₁))
        ∙ sym right))

  Acceptable-Reordered :
      (a b : RuleArrays)
      → IsPresent a
      → IsPresent b
      → Permᴰ (flows_of a) (flows_of b)
      → Permᴰ (routes_of a) (routes_of b)
      → Acceptable a.flows a.flow_count a.routes a.route_count
      → Acceptable b.flows b.flow_count b.routes b.route_count
  Acceptable-Reordered a b ga gb p q c = record {
    few_flows = omega (arith, c.few_flows, same_flows);
    few_routes = omega (arith, c.few_routes, same_routes);
    given_flows = gb.flows_there;
    given_routes = gb.routes_there;
    valid_flows = (All-perm IsFlowRule p c.valid_flows.0, Distinct-perm p c.valid_flows.1);
    valid_routes = (All-perm IsRouteRule q c.valid_routes.0, AreUnique-perm q c.valid_routes.1);
  }
    where
      same_flows : a.flow_count ≡ b.flow_count
      same_flows =
          sym (length-elements a.flows a.flow_count ga.flows ga.flows_there)
          ∙ length-perm p
          ∙ length-elements b.flows b.flow_count gb.flows gb.flows_there

      same_routes : a.route_count ≡ b.route_count
      same_routes =
          sym (length-elements a.routes a.route_count ga.routes ga.routes_there)
          ∙ length-perm q
          ∙ length-elements b.routes b.route_count gb.routes gb.routes_there

  -- Let no allocation fail, and let the arrays hold the same rules, in any order. Where the build of
  -- the one order returns 0, the build of the other returns 0 exactly when the new tables take its
  -- entries in its own order: no call to test for or to add one of them fails.
  pub build-Reordered :
      (g h : Grants) (a b : RuleArrays) (m n : ℕ) (v w : World)
      → IsGranted g
      → IsGranted h
      → IsPresent a
      → IsPresent b
      → Reordered a b
      → (build api g a m v).ret ≡ pos 0
      → ((build api h b n w).ret ≡ pos 0) ↔ Taken api (flows_of b) (routes_of b)
  build-Reordered g h a b m n v w ig ih ga gb (p, q) e =
      let left =
        snapshot_build-Acceptable laws g a.flows a.flow_count a.routes a.route_count m v ig ga.flows
          ga.routes ga.words in
      let right =
        snapshot_build-Acceptable laws h b.flows b.flow_count b.routes b.route_count n w ih gb.flows
          gb.routes gb.words in
      (
        λ f. (right.0 f).1,
        λ takes. ∥∥₁_elim p (ℤ_set _ _) (λ p₁.
            ∥∥₁_elim q (ℤ_set _ _)
              (λ q₁. right.1 (Acceptable-Reordered a b ga gb p₁ q₁ (left.0 e).0, takes))),
      )
