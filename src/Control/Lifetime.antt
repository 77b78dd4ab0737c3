-- ===== src/Control/Lifetime.antt =====
-- What the control path keeps: the active snapshot owns all rule memory, and its generation is the
-- one that the statistics show.
use mathlib.Core.Path.{subst}
use dpdk_high_speed_flow_rou.Prelude.{
  ℕ, ◌+◌, ◌≡◌, refl, sym, ◌∙◌, ◌⊎◌, inl, inr, ap, not, ◌||◌, Bool, true, false, Option, none, some,
  arith, pos, is_neg, u64, Bool-cases,
}
use dpdk_high_speed_flow_rou.Tables.{TableApi}
use dpdk_high_speed_flow_rou.Snapshot.Types.{
  World, Ledger, Grants, Snapshot, is_some, snapshot_free,
}
use dpdk_high_speed_flow_rou.Snapshot.Build.{Built}
use dpdk_high_speed_flow_rou.Snapshot.Ledgers.{
  Owns, Settled, snapshot_build-Settled, snapshot_free-beside, snapshot_free-generation,
}
use dpdk_high_speed_flow_rou.State.{Dp}
use dpdk_high_speed_flow_rou.Control.{
  QsbrGrant, made, no_size, no_memory, no_init, RuleArrays, qsbr_create, configured,
  configure_rules, Published, exchanged, publish_rules, rules_teardown,
}

module _ (api : TableApi) (base : Ledger) where
  -- Beyond `base`, exactly the active snapshot is allocated.
  abbrev pub Holds : Option (Snapshot api) → World → Type 0
  Holds none w = w.ledger ≡ base
  Holds (some s) w = Owns api s base w.ledger × (s.generation ≡ w.stats.rules_generation)

  pub record IsKept (dp : Dp api) : Type 0 where
    pub holds : Holds dp.active_rules dp.world
    pub present : dp.rules_configured ≡ is_some dp.active_rules

  freed-ledger :
      (active : Option (Snapshot api)) (noted : Bool) (w : World)
      → Holds active w
      → (snapshot_free api active false noted w).ledger ≡ base
  unfolding snapshot_free
  freed-ledger none noted w h = h
  freed-ledger (some s) noted w h = unfold snapshot_free in ground (arith, h.0)

  -- A teardown frees all rule memory, and leaves no rules.
  pub rules_teardown-IsKept :
      (dp : Dp api)
      → IsKept dp
      → IsKept (rules_teardown api dp)
        × ((rules_teardown api dp).world.ledger ≡ base)
        × ((rules_teardown api dp).rules_qsbr ≡ false)
  unfolding rules_teardown
  rules_teardown-IsKept dp k =
      let empty = freed-ledger dp.active_rules true dp.world k.holds in
      (record { holds = empty; present = refl }, empty, refl)

  -- A new snapshot on top of the old one, once the old one is freed.
  exchanged-Holds :
      (old : Option (Snapshot api)) (s : Snapshot api) (before w : World)
      → Holds old before
      → Owns api s before.ledger w.ledger
      → s.generation ≡ w.stats.rules_generation
      → Holds (some s) (snapshot_free api old true true w)
  unfolding snapshot_free
  exchanged-Holds none s before w h o g = (ground (arith, o), g)
  exchanged-Holds (some old) s before w h o g = (
    snapshot_free-beside api s old true true base before.ledger w h.0 o,
    g ∙ sym (snapshot_free-generation api (some old) true true w),
  )

  -- What a publication comes to: refused, with the active rules and the generation as they were, or
  -- done, with a snapshot of the next generation, which is also what the caller is told.
  abbrev pub IsPublished : Dp api → Published api → Type 0
  IsPublished dp p =
      ((is_neg p.ret ≡ true)
        × (p.dp.active_rules ≡ dp.active_rules)
        × (p.dp.world.ledger ≡ dp.world.ledger)
        × (p.dp.world.stats.rules_generation ≡ dp.world.stats.rules_generation)
        × (p.generation ≡ none))
      ⊎ ((s : Snapshot api) × (p.ret ≡ pos 0)
          × (p.dp.active_rules ≡ some s)
          × (s.generation ≡ u64 (dp.world.stats.rules_generation + 1))
          × (p.generation ≡ some s.generation))

  Holds-same :
      (active : Option (Snapshot api)) (w v : World)
      → v.ledger ≡ w.ledger
      → v.stats.rules_generation ≡ w.stats.rules_generation
      → Holds active w
      → Holds active v
  Holds-same none w v l g h = l ∙ h
  Holds-same (some s) w v l g h = (subst (Owns api s base) (sym l) h.0, h.1 ∙ sym g)

  abbrev refused_state : Dp api → Bool
  refused_state dp =
      not dp.initialized
      || (not dp.rules_configured || (not dp.rules_qsbr || not (is_some dp.active_rules)))

  exchanged-IsKept :
      (b : Built api) (next : ℕ) (dp : Dp api)
      → next ≡ u64 (dp.world.stats.rules_generation + 1)
      → IsKept dp
      → dp.rules_configured ≡ true
      → Settled api next dp.world b
      → IsKept (exchanged api b next dp).dp × IsPublished dp (exchanged api b next dp)
  unfolding exchanged
  exchanged-IsKept b next dp e k c (inl (bad, none_built, same)) = rw bad (
    record {
      holds =
          Holds-same dp.active_rules dp.world _ (ground (arith, same)) (ground (arith, same))
            k.holds;
      present = k.present;
    },
    inl (bad, refl, ground (arith, same), ground (arith, same), refl),
  )
  exchanged-IsKept b next dp e k c (inr (s, good, built, owns, stats, dated)) =
      let fine : is_neg b.ret ≡ false = ground arith in
      rw (fine, built)
        (
          record {
            holds = exchanged-Holds dp.active_rules s dp.world _ k.holds owns dated;
            present = c;
          },
          inr (s, refl, refl, dated ∙ e, ap some (sym dated)),
        )

  -- A publication keeps the ownership of the rule memory on every path: the old snapshot is freed
  -- exactly when a new one replaces it. It is refused without effect on the active rules, or done.
  pub publish_rules-IsKept :
      (out : Bool) (g : Grants) (r : RuleArrays) (dp : Dp api)
      → IsKept dp
      → IsKept (publish_rules api out g r dp).dp × IsPublished dp (publish_rules api out g r dp)
  unfolding publish_rules
  publish_rules-IsKept false g r dp k = (k, inl (refl, refl, refl, refl, refl))
  publish_rules-IsKept true g r dp k = elim (Bool-cases (refused_state dp)) [
    | inl bad ↦
        rw bad (record { holds = k.holds; present = k.present }, inl (refl, refl, refl, refl, refl))
    | inr fine ↦
        let next = u64 (dp.world.stats.rules_generation + 1) in
        rw fine (
          exchanged-IsKept _ next dp refl k (ground arith) (
            snapshot_build-Settled api next dp.world g r.flows r.flow_count r.routes r.route_count))
  ]

  -- The same of the first configuration.
  configured-IsKept :
      (b : Built api) (dp : Dp api)
      → dp.active_rules ≡ none
      → IsKept dp
      → Settled api 1 dp.world b
      → IsKept (configured api b dp).1
  unfolding configured
  configured-IsKept b dp e k (inl (bad, none_built, same)) = rw bad (record {
    holds =
        Holds-same dp.active_rules dp.world _ (ground (arith, same)) (ground (arith, same)) k.holds;
    present = k.present;
  })
  configured-IsKept b dp e k (inr (s, good, built, owns, stats, dated)) =
      let fine : is_neg b.ret ≡ false = ground arith in
      let bare : dp.world.ledger ≡ base = rw e at k.holds in
      rw (fine, built)
        (record {
          holds = (subst (λ l. Owns api s l b.world.ledger) bare owns, dated);
          present = refl;
        })

  -- The QSBR variable is all that its creation touches.
  qsbr_create-frame :
      (q : QsbrGrant) (dp : Dp api)
      → ((qsbr_create api q dp).1.active_rules ≡ dp.active_rules)
        × ((qsbr_create api q dp).1.world ≡ dp.world)
        × ((qsbr_create api q dp).1.rules_configured ≡ dp.rules_configured)
  unfolding qsbr_create
  qsbr_create-frame made dp = (refl, refl, refl)
  qsbr_create-frame (no_size e) dp = ground arith
  qsbr_create-frame (no_memory e) dp = ground arith
  qsbr_create-frame (no_init e) dp = ground arith

  qsbr_create-IsKept : (q : QsbrGrant) (dp : Dp api) → IsKept dp → IsKept (qsbr_create api q dp).1
  qsbr_create-IsKept q dp k =
      let (active, world, done) = qsbr_create-frame q dp in
      record { holds = rw (active, world) k.holds; present = rw (active, done) k.present }

  no_rules : (o : Option (Snapshot api)) → false ≡ is_some o → o ≡ none
  no_rules none e = refl
  no_rules (some s) e = cc

  -- The first configuration keeps the ownership of the rule memory, whether it succeeds or fails.
  pub configure_rules-IsKept :
      (q : QsbrGrant) (g : Grants) (r : RuleArrays) (dp : Dp api)
      → IsKept dp
      → IsKept (configure_rules api q g r dp).1
  unfolding configure_rules
  configure_rules-IsKept q g r dp k = elim (Bool-cases (not dp.initialized)) [
    | inl off ↦ rw off k
    | inr on ↦ elim (Bool-cases (dp.rules_configured || (dp.ready || (dp.running || dp.ran)))) [
      | inl late ↦ rw (on, late) k
      | inr early ↦
          let (ret, dp₁) = qsbr_create api q dp in
          let kept = qsbr_create-IsKept q dp k in
          elim (Bool-cases (is_neg (qsbr_create api q dp).0)) [
            | inl bad ↦ rw (on, early, bad) kept
            | inr fine ↦
                let unset : false ≡ is_some dp₁.active_rules =
                  ground (arith, qsbr_create-frame q dp, kept.present) in
                rw (on, early, fine)
                  (configured-IsKept _ dp₁ (no_rules dp₁.active_rules unset) kept (
                    snapshot_build-Settled api 1 dp₁.world g r.flows r.flow_count r.routes
                      r.route_count))
          ]
    ]
  ]
