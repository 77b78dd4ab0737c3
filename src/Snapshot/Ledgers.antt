-- ===== src/Snapshot/Ledgers.antt =====
-- What a build allocates: a snapshot that is handed over owns it all, and a failed build leaves
-- nothing behind.
use mathlib.Core.Bool.{false≢true}
use dpdk_high_speed_flow_rou.Prelude.{
  sym, ◌∙◌, ℕ, ◌+◌, ◌≡◌, ◌⊎◌, refl, u32, ltb, ◌||◌, errno_or-neg, pos, Bool, true, false, List,
  Option, none, some, arith, ℤ, is_neg, Bool-cases, inl, inr,
}
use dpdk_high_speed_flow_rou.Rules.{FlowRule, RouteRule}
use dpdk_high_speed_flow_rou.Tables.{TableApi}
use dpdk_high_speed_flow_rou.Snapshot.Types.{
  World, Ledger, Grant, granted, refused, Grants, Snapshot, is_some, count_one, snapshot_free,
  missing, elements,
}
use dpdk_high_speed_flow_rou.Snapshot.Build.{
  Draft, BuildStep, Built, ◌>=>◌, alloc_actions, create_flow_table, create_route_table, fill_flows,
  fill_routes, build_steps, finish_build, snapshot_build, build_granted, empty_snapshot,
}

module _ (api : TableApi) where
  -- The ledger holds what `before` holds and the objects of the snapshot.
  pub record Owns (s : Snapshot api) (before after : Ledger) : Type 0 where
    pub snapshots : after.snapshots ≡ before.snapshots + 1
    pub action_stores : after.action_stores ≡ before.action_stores + count_one (is_some s.actions)
    pub flow_tables : after.flow_tables ≡ before.flow_tables + count_one (is_some s.flow_table)
    pub route_tables : after.route_tables ≡ before.route_tables + count_one (is_some s.route_table)

  -- Freeing a snapshot takes away exactly what it owns.
  pub snapshot_free-Owns :
      (s : Snapshot api) (reclaimed noted : Bool) (before : Ledger) (w : World)
      → Owns s before w.ledger
      → (snapshot_free api (some s) reclaimed noted w).ledger ≡ before
  unfolding snapshot_free
  snapshot_free-Owns s reclaimed noted before w o = ground arith

  snapshot_free-unnoted :
      (s : Snapshot api) (w : World) → (snapshot_free api (some s) false false w).stats ≡ w.stats
  unfolding snapshot_free
  snapshot_free-unnoted s w = ground arith

  -- Freeing the old snapshot beside a new one leaves the new one.
  pub snapshot_free-beside :
      (s old : Snapshot api) (reclaimed noted : Bool) (base before : Ledger) (w : World)
      → Owns old base before
      → Owns s before w.ledger
      → Owns s base (snapshot_free api (some old) reclaimed noted w).ledger
  unfolding snapshot_free
  snapshot_free-beside s old reclaimed noted base before w o n = ground arith

  pub snapshot_free-generation :
      (old : Option (Snapshot api)) (reclaimed noted : Bool) (w : World)
      → (snapshot_free api old reclaimed noted w).stats.rules_generation ≡ w.stats.rules_generation
  unfolding snapshot_free
  snapshot_free-generation none reclaimed noted w = refl
  snapshot_free-generation (some old) reclaimed noted w = refl

module _ (api : TableApi) (generation : ℕ) where
  -- A draft that owns what was allocated since the start, with the statistics as they were.
  abbrev Accounted : World → Draft api → Type 0
  Accounted w b =
      Owns api b.snapshot w.ledger b.world.ledger
      × (b.world.stats ≡ w.stats)
      × (b.snapshot.generation ≡ generation)

  -- A step from a draft with `P` accounts for what it allocates, and leaves `Q` if it succeeds.
  abbrev Moves : World → (Draft api → Type 0) → BuildStep api → (Draft api → Type 0) → Type 0
  Moves w P m Q =
      (b : Draft api)
      → Accounted w b
      → P b
      → Accounted w (m b).1 × (is_neg (m b).0 ≡ false → Q (m b).1)

  >=>-Moves :
      (w : World) (P Q R : Draft api → Type 0) (m k : BuildStep api)
      → Moves w P m Q
      → Moves w Q k R
      → Moves w P (◌>=>◌ api m k) R
  >=>-Moves w P Q R m k hm hk b a p = elim (Bool-cases (is_neg (m b).0)) [
    | inl bad ↦ rw bad ((hm b a p).0, λ good. absurd (false≢true (sym good ∙ bad)))
    | inr good ↦ rw good (hk (m b).1 (hm b a p).0 ((hm b a p).1 good))
  ]

  abbrev NoTables : Draft api → Type 0
  NoTables b = (b.snapshot.flow_table ≡ none) × (b.snapshot.route_table ≡ none)

  abbrev Fresh : Draft api → Type 0
  Fresh b = (b.snapshot.actions ≡ none) × NoTables b

  abbrev NoRoutes : Draft api → Type 0
  NoRoutes b = b.snapshot.route_table ≡ none

  abbrev Anything : Draft api → Type 0
  Anything b = Unit {0}

  module _ (w : World) where
    alloc_actions-Moves :
        (g : Grant) (total : ℕ) → Moves w Fresh (alloc_actions api g total) NoTables
    unfolding alloc_actions
    alloc_actions-Moves granted total b a p = ground arith
    alloc_actions-Moves (refused e) total b a p = ground arith

    create_flow_table-Moves :
        (g : Grant) (n : ℕ) → Moves w NoTables (create_flow_table api g n) NoRoutes
    unfolding create_flow_table
    create_flow_table-Moves granted n b a p = ground arith
    create_flow_table-Moves (refused e) n b a p = ground arith

    create_route_table-Moves :
        (g : Grant) (n : ℕ) → Moves w NoRoutes (create_route_table api g n) Anything
    unfolding create_route_table
    create_route_table-Moves granted n b a p = ground arith
    create_route_table-Moves (refused e) n b a p = ground arith

    fill_flows-Moves : (fs : List FlowRule) → Moves w Anything (fill_flows api fs) Anything
    unfolding fill_flows
    fill_flows-Moves fs b a p = ground arith

    fill_routes-Moves :
        (rs : List RouteRule) (n : ℕ) → Moves w Anything (fill_routes api rs n) Anything
    unfolding fill_routes
    fill_routes-Moves rs n b a p = ground arith

    build_steps-Moves :
        (g : Grants) (fs : List FlowRule) (m : ℕ) (rs : List RouteRule) (n : ℕ)
        → Moves w Fresh (build_steps api g fs m rs n) Anything
    unfolding build_steps
    build_steps-Moves g fs m rs n =
        >=>-Moves w Fresh NoTables Anything _ _ (alloc_actions-Moves g.actions (u32 (m + n))) (
          >=>-Moves w NoTables NoRoutes Anything _ _ (create_flow_table-Moves g.flow_table m) (
            >=>-Moves w NoRoutes Anything Anything _ _ (create_route_table-Moves g.route_table n) (
              >=>-Moves w Anything Anything Anything _ _ (fill_flows-Moves fs)
                (fill_routes-Moves rs m))))

    -- The two outcomes of a build.
    abbrev pub Settled : Built api → Type 0
    Settled out =
        ((is_neg out.ret ≡ true) × (out.result ≡ none) × (out.world ≡ w))
        ⊎ ((s : Snapshot api) × (out.ret ≡ pos 0)
            × (out.result ≡ some s)
            × Owns api s w.ledger out.world.ledger
            × (out.world.stats ≡ w.stats)
            × (s.generation ≡ generation))

    -- Freeing a draft without notes undoes the build.
    undone :
        (b : Draft api)
        → Accounted w b
        → snapshot_free api (some b.snapshot) false false b.world ≡ w
    undone b a = ground (
      arith,
      snapshot_free-Owns api b.snapshot false false w.ledger b.world a.0,
      snapshot_free-unnoted api b.snapshot b.world,
    )

    finish_build-Settled : (r : ℤ × Draft api) → Accounted w r.1 → Settled (finish_build api r)
    unfolding finish_build
    finish_build-Settled (ret, b) a = elim (Bool-cases (is_neg ret)) [
      | inl bad ↦ rw bad (inl (bad, refl, undone b a))
      | inr good ↦ rw good (inr (b.snapshot, refl, refl, a.0, a.1, a.2))
    ]

    build_granted-Settled :
        (grant : Grant) (g : Grants) (fs : List FlowRule) (m : ℕ) (rs : List RouteRule) (n : ℕ)
        → Settled (build_granted api grant g fs m rs n generation w)
    unfolding build_granted
    build_granted-Settled (refused e) g fs m rs n = inl (errno_or-neg e 11, refl, refl)
    build_granted-Settled granted g fs m rs n =
        let counted : Owns api (empty_snapshot api generation) w.ledger
            (record w.ledger { snapshots = w.ledger.snapshots + 1 }) =
          omega arith in
        finish_build-Settled _
          (build_steps-Moves g fs m rs n _ (counted, refl, refl) (refl, (refl, refl))).0

    -- A build that fails gives no snapshot and leaves the ledger and the statistics as they were; a
    -- build that succeeds hands over a snapshot of its generation, which owns all that it allocated.
    pub snapshot_build-Settled :
        (g : Grants) (flows : Option (List FlowRule)) (m : ℕ) (routes : Option (List RouteRule))
        (n : ℕ)
        → Settled (snapshot_build api g flows m routes n generation w)
    unfolding snapshot_build
    snapshot_build-Settled g flows m routes n = elim (Bool-cases (ltb 1024 m || ltb 1024 n)) [
      | inl many ↦ rw many (inl (refl, refl, refl))
      | inr few ↦ elim (Bool-cases (missing flows m || missing routes n)) [
        | inl null ↦ rw (few, null) (inl (refl, refl, refl))
        | inr given ↦
            rw (few, given)
              (build_granted-Settled g.snapshot g (elements flows m) m (elements routes n) n)
      ]
    ]
