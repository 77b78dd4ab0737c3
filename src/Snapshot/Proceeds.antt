-- ===== src/Snapshot/Proceeds.antt =====
-- The steps of `dp_snapshot_build` on rules that pass every check, when no allocation fails.
use dpdk_high_speed_flow_rou.Prelude.{
  ℕ, ◌+◌, ◌^◌, ◌≤◌, ◌<◌, ◌≡◌, refl, false, List, [], ◌∷◌, Option, none, some, arith, All, length,
  is_neg, u32,
}
use dpdk_high_speed_flow_rou.Rules.{FlowRule, RouteRule}
use dpdk_high_speed_flow_rou.Tables.{TableApi, TableLaws}
use dpdk_high_speed_flow_rou.Snapshot.Types.{
  granted, Grants, Snapshot, slots, new_flow_table, new_route_table,
}
use dpdk_high_speed_flow_rou.Snapshot.Taken.{TakesFlows, TakesRoutes, Taken}
use dpdk_high_speed_flow_rou.Snapshot.Build.{
  Draft, BuildStep, ◌>=>◌, alloc_actions, create_flow_table, create_route_table, fill_flow_table,
  fill_flows, fill_route_table, fill_routes, build_steps,
}
use dpdk_high_speed_flow_rou.Snapshot.Valid.{IsFlowRule, IsRouteRule, Distinct}
use dpdk_high_speed_flow_rou.Snapshot.Unique.{AreUnique}
use dpdk_high_speed_flow_rou.Snapshot.Accepts.{Free, Vacant, add_flows_accepts, add_routes_accepts}
use dpdk_high_speed_flow_rou.Snapshot.Serving.{
  Ensures, Empty, Allocated, WithFlows, WithRoutes, AfterFlows, alloc_actions-Ensures,
  create_flow_table-Ensures, create_route_table-Ensures, fill_flows-Ensures,
}

-- No allocation fails.
abbrev pub IsGranted : Grants → Type 0
IsGranted g =
    (g.snapshot ≡ granted)
    × (g.actions ≡ granted)
    × (g.flow_table ≡ granted)
    × (g.route_table ≡ granted)

module _ {api : TableApi} (laws : TableLaws api) where
  -- The step does not fail where the condition holds.
  abbrev pub Proceeds : (Snapshot api → Type 0) → BuildStep api → Type 0
  Proceeds P m = (b : Draft api) → P b.snapshot → is_neg (m b).0 ≡ false

  >=>-Proceeds :
      (P Q : Snapshot api → Type 0) (m k : BuildStep api)
      → Proceeds P m
      → Ensures laws P m Q
      → Proceeds Q k
      → Proceeds P (◌>=>◌ api m k)
  >=>-Proceeds P Q m k hm he hk b p = let good = hm b p in rw good (hk (m b).1 (he b p good))

  all-Free : (fs : List FlowRule) → Free laws (new_flow_table api) fs
  all-Free [] = tt
  all-Free (f ∷ fs) = (laws.hash_lookup-create 2048 _, all-Free fs)

  all-Vacant : (t : api.Lpm) (rs : List RouteRule) → laws.rules t ≡ [] → Vacant laws t rs
  all-Vacant t [] new = tt
  all-Vacant t (r ∷ rs) new = (rw new refl, all-Vacant t rs new)

  module _ (fs : List FlowRule) (rs : List RouteRule) where
    alloc_actions-Proceeds : (n : ℕ) → Proceeds (Empty laws fs rs) (alloc_actions api granted n)
    unfolding alloc_actions
    alloc_actions-Proceeds n b p = ground arith

    create_flow_table-Proceeds :
        Proceeds (Allocated laws fs rs) (create_flow_table api granted (length fs))
    unfolding create_flow_table
    create_flow_table-Proceeds b p = ground arith

    create_route_table-Proceeds :
        Proceeds (WithFlows laws fs rs) (create_route_table api granted (length rs))
    unfolding create_route_table
    create_route_table-Proceeds b p = ground arith

    fill_flow_table-Proceeds :
        (table : Option api.Hash) (b : Draft api)
        → b.snapshot.flow_table ≡ table
        → All IsFlowRule fs
        → Distinct fs
        → TakesFlows api (new_flow_table api) 0 fs
        → WithRoutes laws fs rs b.snapshot
        → is_neg (fill_flow_table api table fs b).0 ≡ false
    unfolding fill_flow_table
    fill_flow_table-Proceeds none b same v distinct takes p = refl
    fill_flow_table-Proceeds (some t) b same v distinct takes p =
        let new : t ≡ new_flow_table api = ground arith in
        rw new (
          add_flows_accepts laws fs 0 (new_flow_table api, slots b.snapshot.actions) v distinct
            (all-Free fs) takes)

    fill_flows-Proceeds :
        All IsFlowRule fs
        → Distinct fs
        → TakesFlows api (new_flow_table api) 0 fs
        → Proceeds (WithRoutes laws fs rs) (fill_flows api fs)
    unfolding fill_flows
    fill_flows-Proceeds v distinct takes b p =
        fill_flow_table-Proceeds b.snapshot.flow_table b refl v distinct takes p

    fill_route_table-Proceeds :
        (table : Option api.Lpm) (b : Draft api)
        → b.snapshot.route_table ≡ table
        → All IsRouteRule rs
        → AreUnique rs
        → All (λ r. r.prefix < 2 ^ 32) rs
        → length fs + length rs ≤ 2048
        → TakesRoutes api (new_route_table api) (length fs) rs
        → AfterFlows laws fs rs b.snapshot
        → is_neg (fill_route_table api table rs (length fs) b).0 ≡ false
    unfolding fill_route_table
    fill_route_table-Proceeds none b same v unique words few takes p = refl
    fill_route_table-Proceeds (some t) b same v unique words few takes p =
        let new : t ≡ new_route_table api = ground arith in
        let bare : laws.rules t ≡ [] = rw new (laws.rules-create 1024 256) in
        add_routes_accepts laws rs (length fs) (t, slots b.snapshot.actions) v unique words
          (omega arith) (all-Vacant t rs bare) (rw new takes)

    fill_routes-Proceeds :
        All IsRouteRule rs
        → AreUnique rs
        → All (λ r. r.prefix < 2 ^ 32) rs
        → length fs + length rs ≤ 2048
        → TakesRoutes api (new_route_table api) (length fs) rs
        → Proceeds (AfterFlows laws fs rs) (fill_routes api rs (length fs))
    unfolding fill_routes
    fill_routes-Proceeds v unique words few takes b p =
        fill_route_table-Proceeds b.snapshot.route_table b refl v unique words few takes p

    pub build_steps-Proceeds :
        (g : Grants)
        → IsGranted g
        → All IsFlowRule fs × Distinct fs × All IsRouteRule rs × AreUnique rs
        → All (λ r. r.prefix < 2 ^ 32) rs
        → length fs + length rs ≤ 2048
        → Taken api fs rs
        → Proceeds (Empty laws fs rs) (build_steps api g fs (length fs) rs (length rs))
    unfolding build_steps
    build_steps-Proceeds g given (v, distinct, w, unique) words few takes =
        rw (given.1, given.2, given.3)
          (>=>-Proceeds (Empty laws fs rs) (Allocated laws fs rs) (alloc_actions api granted total)
            (◌>=>◌ api make_flows (◌>=>◌ api make_routes filling)) (alloc_actions-Proceeds total)
            (alloc_actions-Ensures laws fs rs granted (omega arith))
            (>=>-Proceeds (Allocated laws fs rs) (WithFlows laws fs rs) make_flows
              (◌>=>◌ api make_routes filling) create_flow_table-Proceeds
              (create_flow_table-Ensures laws fs rs granted)
              (>=>-Proceeds (WithFlows laws fs rs) (WithRoutes laws fs rs) make_routes filling
                create_route_table-Proceeds (create_route_table-Ensures laws fs rs granted)
                (>=>-Proceeds (WithRoutes laws fs rs) (AfterFlows laws fs rs) (fill_flows api fs)
                  (fill_routes api rs (length fs)) (fill_flows-Proceeds v distinct takes.0)
                  (fill_flows-Ensures laws fs rs)
                  (fill_routes-Proceeds w unique words few takes.1)))))
      where
        total : ℕ
        total = u32 (length fs + length rs)

        make_flows : BuildStep api
        make_flows = create_flow_table api granted (length fs)

        make_routes : BuildStep api
        make_routes = create_route_table api granted (length rs)

        filling : BuildStep api
        filling = ◌>=>◌ api (fill_flows api fs) (fill_routes api rs (length fs))
