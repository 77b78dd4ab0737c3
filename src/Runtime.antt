-- ===== src/Runtime.antt =====
-- dataplane/native/dp_runtime.c: init, info, statistics and cleanup. What the EAL answers is an
-- argument. A pointer argument that may be NULL is a Bool, `there`.
pub mod Totals
pub mod Cleanup
pub mod Guard
pub mod Layout
use dpdk_high_speed_flow_rou.Prelude.{
  ℕ, Bool, true, false, not, ◌&&◌, ◌||◌, List, [], ◌∷◌, Option, none, some, ltb, ◌==◌,
  if◌then◌else◌, ℤ, pos, is_neg, minus, errno_or, einval, enodev, ebusy, eio, ealready, enotsup,
  length,
}
use dpdk_high_speed_flow_rou.Tables.{TableApi}
use dpdk_high_speed_flow_rou.Snapshot.Types.{RuleStats, is_some}
use dpdk_high_speed_flow_rou.Stats.{PacketStats, zero_stats, packet_stats_add}
use dpdk_high_speed_flow_rou.State.{Dp, PortStats, WorkerInfo, WorkerCtx, RuntimeInfo}

-- What `rte_version`, `rte_eal_init` and the queries behind it answer.
pub record Eal : Type 0 where
  pub version_matches : Bool
  pub init_result : ℤ
  pub rte_errno : ℕ
  pub main_lcore : ℕ
  pub lcore_count : ℕ
  pub socket_id : ℤ

unfoldable pub all_idle : List WorkerCtx → Bool
all_idle [] = true
all_idle (w ∷ ws) = not (w.launched || w.reader_registered) && all_idle ws

-- The sum over the worker contexts, from the first.
unfoldable pub sum_workers : PacketStats → List WorkerCtx → PacketStats
sum_workers total [] = total
sum_workers total (w ∷ ws) = sum_workers (packet_stats_add total w.stats) ws

-- The result of `dp_dataplane_get_stats`: the sums, the copies for each worker, the statistics
-- of the rules and of the ports.
pub record DpStats : Type 0 where
  pub totals : PacketStats
  pub worker_count : ℕ
  pub workers : List (WorkerInfo × PacketStats)
  pub rules : RuleStats
  pub ports : PortStats

abbrev pub copies : List WorkerCtx → List (WorkerInfo × PacketStats)
copies [] = []
copies (w ∷ ws) = (w.info, w.stats) ∷ copies ws

module _ (api : TableApi) where
  -- `dp_workers_stopped`
  unfoldable pub workers_stopped : Dp api → Bool
  unfolding all_idle
  workers_stopped dp =
      if not (dp.active_workers == 0) || not (dp.registered_readers == 0)
      then false
      else all_idle dp.workers

  unfoldable pub runtime_init : Eal → ℕ → Bool → Dp api → ℤ × Dp api
  runtime_init eal argc there dp =
      if dp.attempted
      then (minus ealready, dp)
      else (if ltb argc 1 || not there
          then (minus einval, dp)
          else let dp₁ : Dp api = record dp { attempted = true } in
            (if not eal.version_matches
              then (minus enotsup, dp₁)
              else (if is_neg eal.init_result then (errno_or eal.rte_errno eio, dp₁) else (
                pos 0,
                record dp₁ {
                  initialized = true;
                  info = record dp₁.info {
                    initialized = 1;
                    main_lcore = eal.main_lcore;
                    lcore_count = eal.lcore_count;
                    socket_id = eal.socket_id;
                  };
                },
              ))))

  unfoldable pub runtime_get_info : Bool → Dp api → ℤ × Option RuntimeInfo
  runtime_get_info there dp =
      if not there
      then (minus einval, none)
      else (if not dp.initialized then (minus enodev, none) else (pos 0, some dp.info))

  unfoldable pub get_stats : Bool → Dp api → ℤ × Option DpStats
  unfolding sum_workers
  get_stats there dp =
      if not there
      then (minus einval, none)
      else (if dp.running then (minus ebusy, none) else (
        pos 0,
        some (record {
          totals = sum_workers zero_stats dp.workers;
          worker_count = length dp.workers;
          workers = copies dp.workers;
          rules = dp.world.stats;
          ports = dp.port_stats;
        }),
      ))

  -- `cleanup_result` is that of `rte_eal_cleanup`.
  unfoldable pub runtime_cleanup : ℤ → Dp api → ℤ × Dp api
  unfolding workers_stopped
  runtime_cleanup cleanup_result dp =
      if not dp.initialized
      then (minus enodev, dp)
      else (if dp.running
            || (not (workers_stopped dp)
                || (dp.pool
                    || (dp.owned0
                        || (dp.owned1
                            || (dp.started0
                                || (dp.started1
                                    || (is_some dp.active_rules
                                        || (dp.rules_qsbr
                                            || (dp.writer_active || dp.rules_configured)))))))))
          then (minus ebusy, dp)
          else (cleanup_result, record dp { initialized = false }))
