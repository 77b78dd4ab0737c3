-- ===== src/Control/Readers.antt =====
-- The reader side of dataplane/native/dp_lookup.c, as far as the process counts its readers. The
-- calls of `rte_rcu_qsbr` stand for their answers.
use dpdk_high_speed_flow_rou.Prelude.{
  ℕ, ◌+◌, ◌-◌, ◌^◌, not, ◌||◌, leb, if◌then◌else◌, ℤ, pos, is_zero, minus, errno_or, u32, eio,
  enodev,
}
use dpdk_high_speed_flow_rou.Tables.{TableApi}
use dpdk_high_speed_flow_rou.State.{Dp}

module _ (api : TableApi) where
  -- `dp_rules_reader_register`. `max_lcore` is RTE_MAX_LCORE of DPDK's configuration, which is
  -- DP_RULE_READER_CAPACITY; `register` answers `rte_rcu_qsbr_thread_register`.
  unfoldable pub reader_register : ℕ → ℤ → ℕ → ℕ → Dp api → ℤ × Dp api
  reader_register max_lcore register rte_errno reader_id dp =
      if not dp.rules_qsbr || leb max_lcore reader_id
      then (minus enodev, dp)
      else (if not (is_zero register)
          then (errno_or rte_errno eio, dp)
          else (pos 0, record dp { registered_readers = u32 (dp.registered_readers + 1) }))

  -- `dp_rules_reader_unregister`
  unfoldable pub reader_unregister : Dp api → Dp api
  reader_unregister dp = record dp { registered_readers = u32 (dp.registered_readers + 2 ^ 32 - 1) }
