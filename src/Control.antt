-- ===== src/Control.antt =====
-- The control path of dataplane/native/dp_lookup.c: `dp_configure_rules`, `dp_publish_rules` and
-- `dp_rules_teardown`. The wait for the grace period is `rte_rcu_qsbr_check` with `wait` set, which
-- returns once every reader has been quiescent: each function is one step here, and the wait changes
-- nothing. Rcu takes the steps of a publication apart.
pub mod Lifetime
pub mod Readers
pub mod Switch
pub mod Reordered
use dpdk_high_speed_flow_rou.Prelude.{
  ℕ, ◌+◌, Bool, true, false, not, ◌&&◌, ◌||◌, List, Option, none, some, if◌then◌else◌, ℤ, pos,
  is_neg, minus, errno_or, u64, einval, enomem, enodev, ealready,
}
use dpdk_high_speed_flow_rou.Rules.{FlowRule, RouteRule}
use dpdk_high_speed_flow_rou.Tables.{TableApi}
use dpdk_high_speed_flow_rou.Snapshot.Types.{World, Grants, Snapshot, is_some, snapshot_free}
use dpdk_high_speed_flow_rou.Snapshot.Build.{Built, snapshot_build}
use dpdk_high_speed_flow_rou.State.{Dp}

-- How the creation of the QSBR variable may go: no size, no memory, or a failed init, each with
-- `rte_errno`.
pub data QsbrGrant : Type 0 where
  made : QsbrGrant
  no_size no_memory no_init : (rte_errno : ℕ) → QsbrGrant

-- The rule arrays and their counts, as they come from the caller.
pub record RuleArrays : Type 0 where
  pub flows : Option (List FlowRule)
  pub flow_count : ℕ
  pub routes : Option (List RouteRule)
  pub route_count : ℕ

module _ (api : TableApi) where
  unfoldable pub qsbr_create : QsbrGrant → Dp api → ℤ × Dp api
  qsbr_create made dp = (pos 0, record dp { rules_qsbr = true })
  qsbr_create (no_size e) dp = if dp.rules_qsbr then (pos 0, dp) else (errno_or e einval, dp)
  qsbr_create (no_memory e) dp = if dp.rules_qsbr then (pos 0, dp) else (errno_or e enomem, dp)
  qsbr_create (no_init e) dp = if dp.rules_qsbr then (pos 0, dp) else (errno_or e einval, dp)

  abbrev pub build : Grants → RuleArrays → ℕ → World → Built api
  build g r generation w =
      snapshot_build api g r.flows r.flow_count r.routes r.route_count generation w

  -- `dp.stats.rules_publish_failed++`
  abbrev pub note_failed : World → World
  note_failed w = record w {
    stats = record w.stats { rules_publish_failed = u64 (w.stats.rules_publish_failed + 1) };
  }

  -- The end of `dp_configure_rules`, from the result of the build.
  unfoldable pub configured : Built api → Dp api → ℤ × Dp api
  configured b dp = if is_neg b.ret then (b.ret, record dp { world = note_failed b.world }) else (
    pos 0,
    record dp {
      active_rules = b.result;
      rules_configured = true;
      world = record b.world {
        stats = record b.world.stats { rules_generation = 1; rules_publish_success = 1 };
      };
    },
  )

  unfoldable pub configure_rules : QsbrGrant → Grants → RuleArrays → Dp api → ℤ × Dp api
  unfolding configured
  configure_rules q g r dp =
      if not dp.initialized
      then (minus enodev, dp)
      else (if dp.rules_configured || (dp.ready || (dp.running || dp.ran))
          then (minus ealready, dp)
          else let (ret, dp₁) = qsbr_create q dp in
            (if is_neg ret then (ret, dp₁) else configured (build g r 1 dp₁.world) dp₁))

  -- The code, the state, and what is written through `generation`.
  pub record Published : Type 0 where
    pub ret : ℤ
    pub dp : Dp api
    pub generation : Option ℕ

  -- The exchange of the pointer, the wait, and the free of the old snapshot.
  unfoldable pub exchanged : Built api → ℕ → Dp api → Published
  exchanged b next dp =
      if is_neg b.ret
      then record {
        ret = b.ret;
        dp = record dp { world = note_failed b.world; writer_active = false };
        generation = none;
      }
      else record {
        ret = pos 0;
        dp = record dp {
          active_rules = b.result;
          writer_active = false;
          world = snapshot_free api dp.active_rules true true (record b.world {
            stats = record b.world.stats {
              rules_generation = next;
              rules_publish_success = u64 (b.world.stats.rules_publish_success + 1);
            };
          });
        };
        generation = some next;
      }

  -- `out` says whether the `generation` pointer is there.
  unfoldable pub publish_rules : Bool → Grants → RuleArrays → Dp api → Published
  unfolding exchanged
  publish_rules out g r dp =
      if not out
      then record { ret = minus einval; dp = dp; generation = none }
      else (if not dp.initialized
            || (not dp.rules_configured || (not dp.rules_qsbr || not (is_some dp.active_rules)))
          then record {
            ret = minus enodev;
            dp = record dp { writer_active = false };
            generation = none;
          }
          else let next = u64 (dp.world.stats.rules_generation + 1) in
            exchanged (build g r next dp.world) next dp)

  unfoldable pub rules_teardown : Dp api → Dp api
  rules_teardown dp =
      let freed = snapshot_free api dp.active_rules false true dp.world in
      record dp {
        active_rules = none;
        rules_qsbr = false;
        rules_configured = false;
        writer_active = false;
        world = record freed {
          stats = record freed.stats {
            qsbr_freed = if dp.rules_qsbr then 1 else freed.stats.qsbr_freed;
          };
        };
      }
