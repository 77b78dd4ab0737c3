-- ===== src/Snapshot/Serving.antt =====
-- A build that succeeds gives a snapshot whose tables and array hold the rules that it was given.
use mathlib.Core.Bool.{false≢true}
use mathlib.Core.Path.{subst}
use dpdk_high_speed_flow_rou.Prelude.{
  ℕ, zero, suc, ◌+◌, ◌^◌, ◌≤◌, ◌<◌, ◌≡◌, refl, sym, ◌∙◌, false, List, Option, none, some, arith, ap,
  length, length-eq-zero, get_elem?, length-replicate, All, is_neg, Bool-cases, inl, inr, ◌>>=◌,
  u32, ◌==◌, if◌then◌else◌,
}
use dpdk_high_speed_flow_rou.Rules.{Action, FlowRule, RouteRule, FlowKey}
use dpdk_high_speed_flow_rou.Tables.{TableApi, TableLaws}
use dpdk_high_speed_flow_rou.Lookup.Reference.{find_flow}
use dpdk_high_speed_flow_rou.Snapshot.Types.{
  Grant, granted, refused, Grants, Snapshot, slots, put_back, zero_action, new_flow_table,
  new_route_table,
}
use dpdk_high_speed_flow_rou.Snapshot.Build.{
  Draft, BuildStep, ◌>=>◌, alloc_actions, create_flow_table, create_route_table, fill_flow_table,
  fill_flows, fill_route_table, fill_routes, build_steps,
}
use dpdk_high_speed_flow_rou.Snapshot.Valid.{
  IsFlowRule, IsRouteRule, Distinct, add_flows_valid, add_flows-Distinct, add_routes_valid,
}
use dpdk_high_speed_flow_rou.Snapshot.Taken.{
  TakesFlows, TakesRoutes, Taken, add_flows-TakesFlows, add_routes-TakesRoutes,
}
use dpdk_high_speed_flow_rou.Snapshot.Unique.{AreUnique, add_routes-AreUnique}
use dpdk_high_speed_flow_rou.Snapshot.Flows.{Serves, add_flows-Serves}
use dpdk_high_speed_flow_rou.Snapshot.Routes.{prefixes, Stored, Routed, add_routes-Routed}

-- An array with the same lower slots gives the same action.
same_slot :
    (old new : List Action) {n : ℕ} (slot : Option ℕ)
    → ((j : ℕ) → slot ≡ some j → j < n)
    → ((j : ℕ) → j < n → get_elem? new j ≡ get_elem? old j)
    → (slot >>= get_elem? new) ≡ (slot >>= get_elem? old)
same_slot old new none below lower = refl
same_slot old new (some j) below lower = lower j (below j refl)

module _ {api : TableApi} (laws : TableLaws api) where
  -- What holds after a step that succeeds.
  abbrev pub Ensures : (Snapshot api → Type 0) → BuildStep api → (Snapshot api → Type 0) → Type 0
  Ensures P m Q = (b : Draft api) → P b.snapshot → is_neg (m b).0 ≡ false → Q (m b).1.snapshot

  pub >=>-Ensures :
      (P Q R : Snapshot api → Type 0) (m k : BuildStep api)
      → Ensures P m Q
      → Ensures Q k R
      → Ensures P (◌>=>◌ api m k) R
  >=>-Ensures P Q R m k hm hk b p h = elim (Bool-cases (is_neg (m b).0)) [
    | inl bad ↦ absurd (false≢true (sym (rw bad at h) ∙ bad))
    | inr good ↦ rw good (hk (m b).1 (hm b p good) (rw good at h))
  ]

  module _ (fs : List FlowRule) (rs : List RouteRule) where
    -- The array has a slot for each rule.
    abbrev pub Sized : Snapshot api → Type 0
    Sized s =
        (length (slots s.actions) ≡ length fs + length rs)
        × (s.action_count ≡ length fs + length rs)

    abbrev pub Empty : Snapshot api → Type 0
    Empty s =
        (s.flow_table ≡ none) × (s.route_table ≡ none) × (s.actions ≡ none) × (s.action_count ≡ 0)

    abbrev pub Allocated : Snapshot api → Type 0
    Allocated s = (s.flow_table ≡ none) × (s.route_table ≡ none) × Sized s

    abbrev fresh_flows : Option api.Hash
    fresh_flows = if length fs == 0 then none else some (new_flow_table api)

    abbrev fresh_routes : Option api.Lpm
    fresh_routes = if length rs == 0 then none else some (new_route_table api)

    abbrev pub WithFlows : Snapshot api → Type 0
    WithFlows s = (s.flow_table ≡ fresh_flows) × (s.route_table ≡ none) × Sized s

    abbrev pub WithRoutes : Snapshot api → Type 0
    WithRoutes s = (s.flow_table ≡ fresh_flows) × (s.route_table ≡ fresh_routes) × Sized s

    pub alloc_actions-Ensures :
        (g : Grant)
        → length fs + length rs < 2 ^ 32
        → Ensures Empty (alloc_actions api g (u32 (length fs + length rs))) Allocated
    unfolding alloc_actions
    alloc_actions-Ensures granted small b p h =
        ground (arith, length-replicate (length fs + length rs) zero_action)
    alloc_actions-Ensures (refused zero) small b p h = ground arith
    alloc_actions-Ensures (refused (suc e)) small b p h = ground arith

    pub create_flow_table-Ensures :
        (g : Grant) → Ensures Allocated (create_flow_table api g (length fs)) WithFlows
    unfolding create_flow_table
    create_flow_table-Ensures granted b p h = ground arith
    create_flow_table-Ensures (refused zero) b p h = ground arith
    create_flow_table-Ensures (refused (suc e)) b p h = ground arith

    pub create_route_table-Ensures :
        (g : Grant) → Ensures WithFlows (create_route_table api g (length rs)) WithRoutes
    unfolding create_route_table
    create_route_table-Ensures granted b p h = ground arith
    create_route_table-Ensures (refused zero) b p h = ground arith
    create_route_table-Ensures (refused (suc e)) b p h = ground arith

    abbrev pub flow_slot : Snapshot api → FlowKey → Option ℕ
    flow_slot s k = s.flow_table >>= λ t. api.hash_lookup_data t k

    -- A key leads to the action of its flow, in one of the first slots.
    pub record FlowsServed (s : Snapshot api) : Type 0 where
      pub below : (k : FlowKey) (j : ℕ) → flow_slot s k ≡ some j → j < length fs
      pub found : (k : FlowKey) → (flow_slot s k >>= get_elem? (slots s.actions)) ≡ find_flow fs k

    -- The flows passed the checks of their loop.
    abbrev pub AreFlows : Type 0
    AreFlows = All IsFlowRule fs × Distinct fs

    no_flows-AreFlows : length fs ≡ 0 → AreFlows
    no_flows-AreFlows e =
        subst (λ (l : List FlowRule). All IsFlowRule l × Distinct l) (sym (length-eq-zero fs e))
          (tt, tt)

    abbrev pub AfterFlows : Snapshot api → Type 0
    AfterFlows s =
        FlowsServed s
        × (s.route_table ≡ fresh_routes)
        × Sized s
        × AreFlows
        × TakesFlows api (new_flow_table api) 0 fs

    no_flows : length fs ≡ 0 → (k : FlowKey) → find_flow fs k ≡ none
    no_flows e k = ap (λ (l : List FlowRule). find_flow l k) (length-eq-zero fs e)

    slots-put_back :
        (old : Option (List Action)) (new : List Action)
        → length new ≡ length (slots old)
        → slots (put_back old new) ≡ new
    slots-put_back none new e = sym (length-eq-zero new e)
    slots-put_back (some old) new e = refl

    new_table-Serves :
        (t : api.Hash) (actions : List Action)
        → t ≡ new_flow_table api
        → Serves laws t actions 0 (λ k. none)
    new_table-Serves t actions new = record {
      below = λ k j e. cc (laws.hash_lookup-create 2048 k);
      found = λ k. rw (new, laws.hash_lookup-create 2048 k) refl;
    }

    fill_flow_table-Ensures :
        (table : Option api.Hash) (b : Draft api)
        → b.snapshot.flow_table ≡ table
        → WithRoutes b.snapshot
        → is_neg (fill_flow_table api table fs b).0 ≡ false
        → AfterFlows (fill_flow_table api table fs b).1.snapshot
    unfolding fill_flow_table
    fill_flow_table-Ensures none b bare p h =
        let empty : length fs ≡ 0 = ground arith in
        (
          record { below = λ k j e. ground arith; found = λ k. rw (bare, no_flows empty k) refl },
          p.1,
          p.2,
          no_flows-AreFlows empty,
          subst (TakesFlows api (new_flow_table api) 0) (sym (length-eq-zero fs empty)) tt,
        )
    fill_flow_table-Ensures (some t) b made p h =
        let new : t ≡ new_flow_table api = ground arith in
        let (served, size) =
          add_flows-Serves laws fs 0 t (slots b.snapshot.actions) {ref = λ k. none} h
            (omega (arith, p.2.0)) (new_table-Serves t (slots b.snapshot.actions) new) in
        let array = slots-put_back b.snapshot.actions _ size in
        (
          record {
            below = λ k j e. omega (arith, served.below k j e);
            found = λ k. rw array (served.found k);
          },
          p.1,
          (rw array (size ∙ p.2.0), p.2.1),
          (
            add_flows_valid laws fs 0 (t, slots b.snapshot.actions) h,
            add_flows-Distinct laws fs 0 (t, slots b.snapshot.actions) h,
          ),
          subst (λ (u : api.Hash). TakesFlows api u 0 fs) new
              (add_flows-TakesFlows laws fs 0 (t, slots b.snapshot.actions) h),
        )

    pub fill_flows-Ensures : Ensures WithRoutes (fill_flows api fs) AfterFlows
    unfolding fill_flows
    fill_flows-Ensures b p h = fill_flow_table-Ensures b.snapshot.flow_table b refl p h

    -- The table holds the routes, and the array their actions behind those of the flows.
    abbrev pub RoutesServed : Option api.Lpm → List Action → Type 0
    RoutesServed none actions = length rs ≡ 0
    RoutesServed (some t) actions =
        (laws.rules t ≡ prefixes (length fs) rs) × Stored actions (length fs) rs

    -- What a finished snapshot has to do with the rules that it was built from.
    pub record Complete (s : Snapshot api) : Type 0 where
      pub flows : FlowsServed s
      pub routes : RoutesServed s.route_table (slots s.actions)
      pub sized : Sized s
      pub valid_flows : AreFlows
      pub valid_routes : All IsRouteRule rs × AreUnique rs
      pub taken : Taken api fs rs

    fill_route_table-Ensures :
        (table : Option api.Lpm) (b : Draft api)
        → b.snapshot.route_table ≡ table
        → All (λ r. r.prefix < 2 ^ 32) rs
        → length fs + length rs ≤ 2048
        → AfterFlows b.snapshot
        → is_neg (fill_route_table api table rs (length fs) b).0 ≡ false
        → Complete (fill_route_table api table rs (length fs) b).1.snapshot
    unfolding fill_route_table
    fill_route_table-Ensures none b bare words few p h = record {
      flows = p.0;
      routes = rw bare (ground arith);
      sized = p.2;
      valid_flows = p.3;
      valid_routes =
          let empty : length rs ≡ 0 = ground arith in
          subst (λ (l : List RouteRule). All IsRouteRule l × AreUnique l)
            (sym (length-eq-zero rs empty)) (tt, tt);
      taken = (
        p.4,
        let empty : length rs ≡ 0 = ground arith in
            subst (TakesRoutes api (new_route_table api) (length fs))
              (sym (length-eq-zero rs empty)) tt,
      );
    }
    fill_route_table-Ensures (some t) b made words few p h =
        let new : t ≡ new_route_table api = ground arith in
        let done : Routed laws t (slots b.snapshot.actions) (length fs) rs _ =
          add_routes-Routed laws rs (length fs) t (slots b.snapshot.actions) h words
            (omega (arith, p.2.0)) (omega (arith, p.2.0)) in
        let array = slots-put_back b.snapshot.actions _ done.size in
        record {
          flows = record {
            below = p.0.below;
            found = λ k. rw array (
                same_slot (slots b.snapshot.actions) _ (flow_slot b.snapshot k) (p.0.below k)
                  done.lower
                ∙ p.0.found k);
          };
          routes = (done.table ∙ rw (new, laws.rules-create 1024 256) refl, rw array done.stored);
          sized = (rw array (done.size ∙ p.2.0), p.2.1);
          valid_flows = p.3;
          valid_routes = (
            add_routes_valid laws rs (length fs) (t, slots b.snapshot.actions) h,
            add_routes-AreUnique laws rs (length fs) (t, slots b.snapshot.actions) h words
                (omega arith),
          );
          taken = (
            p.4,
            subst (λ (u : api.Lpm). TakesRoutes api u (length fs) rs) new
                (add_routes-TakesRoutes laws rs (length fs) (t, slots b.snapshot.actions) h),
          );
        }

    fill_routes-Ensures :
        All (λ r. r.prefix < 2 ^ 32) rs
        → length fs + length rs ≤ 2048
        → Ensures AfterFlows (fill_routes api rs (length fs)) Complete
    unfolding fill_routes
    fill_routes-Ensures words few b p h =
        fill_route_table-Ensures b.snapshot.route_table b refl words few p h

    pub build_steps-Complete :
        (g : Grants)
        → All (λ r. r.prefix < 2 ^ 32) rs
        → length fs + length rs ≤ 2048
        → Ensures Empty (build_steps api g fs (length fs) rs (length rs)) Complete
    unfolding build_steps
    build_steps-Complete g words few =
        >=>-Ensures Empty Allocated Complete (alloc_actions api g.actions _)
          (◌>=>◌ api make_flows (◌>=>◌ api make_routes filling))
          (alloc_actions-Ensures g.actions (omega arith))
          (>=>-Ensures Allocated WithFlows Complete make_flows (◌>=>◌ api make_routes filling)
            (create_flow_table-Ensures g.flow_table)
            (>=>-Ensures WithFlows WithRoutes Complete make_routes filling
              (create_route_table-Ensures g.route_table)
              (>=>-Ensures WithRoutes AfterFlows Complete (fill_flows api fs)
                (fill_routes api rs (length fs)) fill_flows-Ensures
                (fill_routes-Ensures words few))))
      where
        make_flows : BuildStep api
        make_flows = create_flow_table api g.flow_table (length fs)

        make_routes : BuildStep api
        make_routes = create_route_table api g.route_table (length rs)

        filling : BuildStep api
        filling = ◌>=>◌ api (fill_flows api fs) (fill_routes api rs (length fs))
