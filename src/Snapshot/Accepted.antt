-- ===== src/Snapshot/Accepted.antt =====
-- Which rules `dp_snapshot_build` accepts when no allocation fails.
use mathlib.Core.Bool.{false≢true}
use mathlib.Core.Path.{subst₂}
use dpdk_high_speed_flow_rou.Prelude.{
  ℕ, ◌+◌, ◌^◌, ◌≤◌, ◌<◌, ◌≡◌, ◌↔◌, refl, sym, ◌∙◌, true, false, ◌||◌, List, Option, none, arith, ℤ,
  pos, All, length, is_neg, Bool-cases, Option-cases, inl, inr, ltb, errno_or-neg,
}
use dpdk_high_speed_flow_rou.Rules.{FlowRule, RouteRule}
use dpdk_high_speed_flow_rou.Tables.{TableApi, TableLaws}
use dpdk_high_speed_flow_rou.Snapshot.Types.{
  World, Grant, granted, refused, Grants, missing, elements,
}
use dpdk_high_speed_flow_rou.Snapshot.Build.{
  Draft, finish_build, build_granted, snapshot_build, Built,
}
use dpdk_high_speed_flow_rou.Snapshot.Valid.{IsFlowRule, IsRouteRule, Distinct}
use dpdk_high_speed_flow_rou.Snapshot.Unique.{AreUnique}
use dpdk_high_speed_flow_rou.Snapshot.Success.{Provided, length-elements, snapshot_build-Complete}
use dpdk_high_speed_flow_rou.Snapshot.Taken.{Taken}
use dpdk_high_speed_flow_rou.Snapshot.Proceeds.{IsGranted, build_steps-Proceeds}

-- What the caller's arrays must be to be accepted: within the limits, there when they are counted,
-- and every rule valid and of its own key or prefix.
pub record Acceptable (flows : Option (List FlowRule)) (m : ℕ) (routes : Option (List RouteRule))
    (n : ℕ) : Type 0 where
  pub few_flows : m ≤ 1024
  pub few_routes : n ≤ 1024
  pub given_flows : missing flows m ≡ false
  pub given_routes : missing routes n ≡ false
  pub valid_flows : All IsFlowRule (elements flows m) × Distinct (elements flows m)
  pub valid_routes : All IsRouteRule (elements routes n) × AreUnique (elements routes n)

module _ {api : TableApi} (laws : TableLaws api) where
  -- The end of a build whose steps did not fail, and of one that hands a snapshot over.
  finish_build-pos : (r : ℤ × Draft api) → is_neg r.0 ≡ false → (finish_build api r).ret ≡ pos 0
  unfolding finish_build
  finish_build-pos (ret, b) good = rw good refl

  build_granted-pos :
      (fs : List FlowRule) (rs : List RouteRule) (generation : ℕ) (w : World) (grant : Grant)
      (g : Grants) (m n : ℕ)
      → length fs ≡ m
      → length rs ≡ n
      → grant ≡ granted
      → IsGranted g
      → All IsFlowRule fs × Distinct fs × All IsRouteRule rs × AreUnique rs
      → All (λ r. r.prefix < 2 ^ 32) rs
      → m + n ≤ 2048
      → Taken api fs rs
      → (build_granted api grant g fs m rs n generation w).ret ≡ pos 0
  unfolding build_granted
  build_granted-pos fs rs generation w (refused k) g m n em en there given valid words few takes =
      absurd (cc)
  build_granted-pos fs rs generation w granted g m n em en there given valid words few takes =
      subst₂ (λ (i j : ℕ). (build_granted api granted g fs i rs j generation w).ret ≡ pos 0) em en
        (finish_build-pos _ (
          build_steps-Proceeds laws fs rs g given valid words (omega arith) takes _
            (refl, refl, refl, refl)))

  finish_build-none :
      (r : ℤ × Draft api)
      → (finish_build api r).result ≡ none
      → is_neg (finish_build api r).ret ≡ true
  unfolding finish_build
  finish_build-none (ret, b) e = ground arith

  build_granted-none :
      (grant : Grant) (g : Grants) (fs : List FlowRule) (m : ℕ) (rs : List RouteRule)
      (n generation : ℕ) (w : World)
      → (build_granted api grant g fs m rs n generation w).result ≡ none
      → is_neg (build_granted api grant g fs m rs n generation w).ret ≡ true
  unfolding build_granted
  build_granted-none granted g fs m rs n generation w e = finish_build-none _ e
  build_granted-none (refused k) g fs m rs n generation w e = errno_or-neg k _

  module _ (g : Grants) (flows : Option (List FlowRule)) (m : ℕ) (routes : Option (List RouteRule))
      (n generation : ℕ) (w : World) where
    abbrev built : Built api
    built = snapshot_build api g flows m routes n generation w

    snapshot_build-entered :
        is_neg built.ret ≡ false
        → (m ≤ 1024) × (n ≤ 1024) × (missing flows m ≡ false) × (missing routes n ≡ false)
    unfolding snapshot_build
    snapshot_build-entered h = ground arith

    snapshot_build-none : built.result ≡ none → is_neg built.ret ≡ true
    unfolding snapshot_build
    snapshot_build-none e = elim (Bool-cases (ltb 1024 m || ltb 1024 n)) [
      | inl many ↦ rw many refl
      | inr few ↦ elim (Bool-cases (missing flows m || missing routes n)) [
        | inl null ↦ rw (few, null) refl
        | inr given ↦
            rw (few, given)
              (build_granted-none g.snapshot g (elements flows m) m (elements routes n) n generation
                w (rw (few, given) at e))
      ]
    ]

    module _ (pf : Provided flows m) (pr : Provided routes n)
        (words : All (λ r. r.prefix < 2 ^ 32) (elements routes n)) where
      ok-Acceptable :
          built.ret ≡ pos 0
          → Acceptable flows m routes n × Taken api (elements flows m) (elements routes n)
      ok-Acceptable h =
          let good : is_neg built.ret ≡ false = rw h refl in
          let (mf, mr, gf, gr) = snapshot_build-entered good in
          elim (Option-cases built.result) [
            | inl e ↦ absurd (false≢true (sym good ∙ snapshot_build-none e))
            | inr (s, e) ↦
                let c =
                  snapshot_build-Complete laws g flows m routes n generation w s pf pr words e in
                (
                  record {
                    few_flows = mf;
                    few_routes = mr;
                    given_flows = gf;
                    given_routes = gr;
                    valid_flows = c.valid_flows;
                    valid_routes = c.valid_routes;
                  },
                  c.taken,
                )
          ]

      Acceptable-ok :
          IsGranted g
          → Acceptable flows m routes n × Taken api (elements flows m) (elements routes n)
          → built.ret ≡ pos 0
      unfolding snapshot_build
      Acceptable-ok given (a, takes) =
          let few : (ltb 1024 m || ltb 1024 n) ≡ false =
            ground (arith, a.few_flows, a.few_routes) in
          rw (few, a.given_flows, a.given_routes)
            (build_granted-pos (elements flows m) (elements routes n) generation w g.snapshot g m n
              (length-elements flows m pf a.given_flows)
              (length-elements routes n pr a.given_routes) given.0 given
              (a.valid_flows.0, a.valid_flows.1, a.valid_routes.0, a.valid_routes.1) words
              (omega (arith, a.few_flows, a.few_routes)) takes)

  -- Let the arrays have the lengths that the caller states, and let no allocation fail. Then a build
  -- returns 0 exactly when there are at most 1024 flows and 1024 routes, an array that is counted is
  -- there, every flow and every route is valid, no two flows have the same key and no two routes the
  -- same prefix and depth, and the new tables, of 2048 entries, 1024 rules and 256 tbl8 groups, take
  -- these entries in the order of the arrays: no call to test for or to add one of them fails.
  pub snapshot_build-Acceptable :
      (g : Grants) (flows : Option (List FlowRule)) (m : ℕ) (routes : Option (List RouteRule))
      (n generation : ℕ) (w : World)
      → IsGranted g
      → Provided flows m
      → Provided routes n
      → All (λ r. r.prefix < 2 ^ 32) (elements routes n)
      → ((snapshot_build api g flows m routes n generation w).ret ≡ pos 0)
        ↔ (Acceptable flows m routes n × Taken api (elements flows m) (elements routes n))
  snapshot_build-Acceptable g flows m routes n generation w given pf pr words = (
    ok-Acceptable g flows m routes n generation w pf pr words,
    Acceptable-ok g flows m routes n generation w pf pr words given,
  )
