-- ===== src/State.antt =====
-- `struct dp_state` of dataplane/native/dp_internal.h, with the structures of dp_api.h and dp_worker.h
-- that it holds. A pointer that is only compared with NULL is a Bool; the writer lock is left out, as
-- each function that takes it runs as one step.
use dpdk_high_speed_flow_rou.Prelude.{ℕ, Bool, List, Option, ℤ}
use dpdk_high_speed_flow_rou.Tables.{TableApi}
use dpdk_high_speed_flow_rou.Snapshot.Types.{World, Snapshot}
use dpdk_high_speed_flow_rou.Stats.{PacketStats}

-- `DP_MAX_WORKERS`
abbrev pub max_workers : ℕ
max_workers = 4

-- `struct dp_worker_info`
pub record WorkerInfo : Type 0 where
  pub worker_id : ℕ
  pub lcore_id : ℕ
  pub rx_queue_id : ℕ
  pub tx_queue_id : ℕ

-- `struct dp_worker_ctx`
pub record WorkerCtx : Type 0 where
  pub info : WorkerInfo
  pub stats : PacketStats
  pub result : ℤ
  pub launched : Bool
  pub reader_registered : Bool

-- `struct dp_runtime_info`, without the version string; `workers` is the array of `max_workers`.
pub record RuntimeInfo : Type 0 where
  pub initialized : ℕ
  pub main_lcore : ℕ
  pub lcore_count : ℕ
  pub rx_port : ℕ  -- uint16_t
  pub tx_port : ℕ  -- uint16_t
  pub rx_desc : ℕ  -- uint16_t
  pub tx_desc : ℕ  -- uint16_t
  pub nb_mbuf : ℕ
  pub cache_size : ℕ
  pub socket_id : ℤ
  pub worker_count : ℕ
  pub workers : List WorkerInfo

-- The part of `struct dp_stats` that the teardown of the ports writes.
pub record PortStats : Type 0 where
  pub ports_closed : ℕ  -- unsigned int
  pub pool_in_use : ℕ  -- unsigned int
  pub pool_freed : ℕ

-- `world` holds the rule statistics of `dp.stats`; `workers` the first `worker_count` contexts.
pub record Dp (api : TableApi) : Type 0 where
  pub attempted : Bool
  pub initialized : Bool
  pub rules_configured : Bool
  pub ready : Bool
  pub running : Bool
  pub ran : Bool
  pub stop : Bool
  pub pool : Bool
  pub active_rules : Option (Snapshot api)
  pub rules_qsbr : Bool
  pub writer_active : Bool
  pub active_workers : ℕ
  pub registered_readers : ℕ
  pub port0 : ℕ  -- uint16_t
  pub port1 : ℕ  -- uint16_t
  pub owned0 : Bool
  pub owned1 : Bool
  pub started0 : Bool
  pub started1 : Bool
  pub workers : List WorkerCtx
  pub info : RuntimeInfo
  pub port_stats : PortStats
  pub world : World
