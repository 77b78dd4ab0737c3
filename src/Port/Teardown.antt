-- ===== src/Port/Teardown.antt =====
-- `dp_dataplane_teardown` of dataplane/native/dp_port.c.
use dpdk_high_speed_flow_rou.Prelude.{
  ℕ, ◌+◌, Bool, false, not, ◌||◌, ◌&&◌, ◌==◌, if◌then◌else◌, ℤ, pos, is_neg, is_zero, minus, u32,
  ebusy,
}
use dpdk_high_speed_flow_rou.Tables.{TableApi}
use dpdk_high_speed_flow_rou.State.{Dp}
use dpdk_high_speed_flow_rou.Control.{rules_teardown}
use dpdk_high_speed_flow_rou.Runtime.{workers_stopped}

-- What DPDK answers to one teardown; `in_use` is `rte_mempool_in_use_count`.
pub record Stops : Type 0 where
  pub stop0 : ℤ
  pub close0 : ℤ
  pub stop1 : ℤ
  pub close1 : ℤ
  pub in_use : ℕ

-- `if (ret < 0 && !first_error) first_error = ret;`
abbrev pub first_of : ℤ → ℤ → ℤ
first_of first_error ret = if is_neg ret && is_zero first_error then ret else first_error

-- One round of the loop over the ports: whether the port is owned and started, and the code.
pub record PortState : Type 0 where
  pub owned : Bool
  pub started : Bool
  pub closed : ℕ
  pub first_error : ℤ

unfoldable pub close_port : ℤ → ℤ → PortState → PortState
close_port stop close p =
    if not p.owned
    then p
    else let stopped = if p.started then first_of p.first_error stop else p.first_error in
      record {
        owned = not (is_zero close);
        started = p.started && not (is_zero stop);
        closed = if is_zero close then u32 (p.closed + 1) else p.closed;
        first_error = first_of stopped close;
      }

module _ (api : TableApi) where
  unfoldable pub close_ports : Stops → Dp api → ℤ × Dp api
  unfolding close_port
  close_ports s dp =
      let p = close_port s.stop0 s.close0 (record {
        owned = dp.owned0;
        started = dp.started0;
        closed = dp.port_stats.ports_closed;
        first_error = pos 0;
      }) in
      let q = close_port s.stop1 s.close1 (record {
        owned = dp.owned1;
        started = dp.started1;
        closed = p.closed;
        first_error = p.first_error;
      }) in
      (
        q.first_error,
        record dp {
          owned0 = p.owned;
          started0 = p.started;
          owned1 = q.owned;
          started1 = q.started;
          port_stats = record dp.port_stats { ports_closed = q.closed };
        },
      )

  -- The pool goes when no port holds its packets, and it is empty.
  unfoldable pub free_pool : ℕ → ℤ × Dp api → ℤ × Dp api
  free_pool in_use (first_error, dp) =
      if dp.pool && (not dp.owned0 && not dp.owned1)
      then (if not (in_use == 0)
          then (
            if is_zero first_error then minus ebusy else first_error,
            record dp { port_stats = record dp.port_stats { pool_in_use = in_use } },
          )
          else (
            first_error,
            record dp {
              pool = false;
              port_stats = record dp.port_stats { pool_in_use = 0; pool_freed = 1 };
            },
          ))
      else (first_error, dp)

  unfoldable pub dataplane_teardown : Stops → Dp api → ℤ × Dp api
  unfolding close_ports free_pool
  dataplane_teardown s dp =
      if dp.running || not (workers_stopped api dp)
      then (minus ebusy, dp)
      else free_pool s.in_use (close_ports s (rules_teardown api (record dp { ready = false })))
