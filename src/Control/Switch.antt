-- ===== src/Control/Switch.antt =====
-- From a publication to the lookups behind it.
use dpdk_high_speed_flow_rou.Prelude.{
  ℕ, ◌+◌, ◌^◌, ◌<◌, ◌≡◌, ◌⊎◌, inl, inr, refl, not, ◌||◌, Bool, true, false, Option, some, arith,
  All, pos, is_neg, u64, Bool-cases,
}
use dpdk_high_speed_flow_rou.Packet.{Meta}
use dpdk_high_speed_flow_rou.Tables.{TableApi, TableLaws}
use dpdk_high_speed_flow_rou.Snapshot.Types.{Grants, Snapshot, is_some, elements, slots}
use dpdk_high_speed_flow_rou.Snapshot.Build.{Built}
use dpdk_high_speed_flow_rou.Snapshot.Ledgers.{Settled, snapshot_build-Settled}
use dpdk_high_speed_flow_rou.Snapshot.Success.{Provided}
use dpdk_high_speed_flow_rou.Lookup.{lookup_packet}
use dpdk_high_speed_flow_rou.Lookup.Reference.{reference}
use dpdk_high_speed_flow_rou.Lookup.Refine.{resolve}
use dpdk_high_speed_flow_rou.Lookup.Configured.{lookup_packet-snapshot_build}
use dpdk_high_speed_flow_rou.State.{Dp}
use dpdk_high_speed_flow_rou.Control.{RuleArrays, Published, build, exchanged, publish_rules}

module _ {api : TableApi} where
  -- Every lookup on the active rules decides as the reference does on these arrays.
  abbrev pub Serving : RuleArrays → Option (Snapshot api) → Type 0
  Serving r active =
      (s : Snapshot api) × (active ≡ some s)
      × ((meta : Meta)
          → meta.dst_ipv4 < 2 ^ 32
          → resolve (slots s.actions) (lookup_packet api meta active)
            ≡ some
                (reference (elements r.flows r.flow_count) (elements r.routes r.route_count) meta))

  -- The old rules stay, or the new ones are served.
  abbrev pub Switched : RuleArrays → Dp api → Published api → Type 0
  Switched r dp p =
      ((is_neg p.ret ≡ true) × (p.dp.active_rules ≡ dp.active_rules))
      ⊎ ((p.ret ≡ pos 0) × Serving r p.dp.active_rules)

  exchanged-Switched :
      (r : RuleArrays) (b : Built api) (next : ℕ) (dp : Dp api)
      → Settled api next dp.world b
      → ((s : Snapshot api) → b.result ≡ some s → Serving r (some s))
      → Switched r dp (exchanged api b next dp)
  unfolding exchanged
  exchanged-Switched r b next dp (inl (bad, none_built, same)) serves = rw bad (inl (bad, refl))
  exchanged-Switched r b next dp (inr (s, good, built, owns, stats, dated)) serves =
      let fine : is_neg b.ret ≡ false = ground arith in
      rw (fine, built) (inr (refl, serves s built))

  -- Over tables that keep the laws of DPDK, a publication of arrays of the given lengths either ends
  -- with a negative code, and the active rules are the ones that they were; or it ends with code 0, and
  -- then every lookup on the active rules decides as the reference does on the new arrays.
  pub publish_rules-Switched :
      (laws : TableLaws api) (out : Bool) (g : Grants) (r : RuleArrays) (dp : Dp api)
      → Provided r.flows r.flow_count
      → Provided r.routes r.route_count
      → All (λ q. q.prefix < 2 ^ 32) (elements r.routes r.route_count)
      → Switched r dp (publish_rules api out g r dp)
  unfolding publish_rules
  publish_rules-Switched laws false g r dp pf pr words = inl (refl, refl)
  publish_rules-Switched laws true g r dp pf pr words =
      elim (Bool-cases (
        not dp.initialized
        || (not dp.rules_configured || (not dp.rules_qsbr || not (is_some dp.active_rules))))) [
          | inl bad ↦ rw bad (inl (refl, refl))
          | inr fine ↦
              let next = u64 (dp.world.stats.rules_generation + 1) in
              rw fine (
                exchanged-Switched r (build api g r next dp.world) next dp
                  (snapshot_build-Settled api next dp.world g r.flows r.flow_count r.routes
                    r.route_count)
                  (λ s is. (
                    s,
                    refl,
                    λ meta ip.
                        lookup_packet-snapshot_build laws g r.flows r.flow_count r.routes
                          r.route_count next dp.world s meta pf pr words ip is,
                  )))
        ]
