-- ===== src/Port/Shutdown.antt =====
-- Setup, teardown and cleanup in a row.
use dpdk_high_speed_flow_rou.Prelude.{ℕ, ◌≡◌, ◌∙◌, Bool, true, false, arith, ℤ, pos, inl}
use dpdk_high_speed_flow_rou.Tables.{TableApi}
use dpdk_high_speed_flow_rou.State.{Dp}
use dpdk_high_speed_flow_rou.Control.{rules_teardown}
use dpdk_high_speed_flow_rou.Runtime.{runtime_cleanup}
use dpdk_high_speed_flow_rou.Runtime.Cleanup.{runtime_cleanup-IsReleased}
use dpdk_high_speed_flow_rou.Port.Setup.{Platform, dataplane_setup}
use dpdk_high_speed_flow_rou.Port.Quiet.{IsQuiet}
use dpdk_high_speed_flow_rou.Port.Lifecycle.{dataplane_setup-Outcome}
use dpdk_high_speed_flow_rou.Port.Teardown.{
  Stops, PortState, close_port, close_ports, free_pool, dataplane_teardown,
}
use dpdk_high_speed_flow_rou.Port.Released.{
  guard_passes, torn_down-Frame, dataplane_teardown-IsReleased,
}

-- Every call succeeds, and no packet of the pool is in use.
abbrev pub AllSucceed : Stops → Type 0
AllSucceed s =
    (s.stop0 ≡ pos 0) × (s.close0 ≡ pos 0) × (s.stop1 ≡ pos 0) × (s.close1 ≡ pos 0) × (s.in_use ≡ 0)

close_port-done :
    (stop close : ℤ) (p : PortState)
    → stop ≡ pos 0
    → close ≡ pos 0
    → (close_port stop close p).first_error ≡ p.first_error
unfolding close_port
close_port-done stop close p s c = ground arith

module _ (api : TableApi) (s : Stops) where
  close_ports-done : (dp : Dp api) → AllSucceed s → (close_ports api s dp).0 ≡ pos 0
  unfolding close_ports
  close_ports-done dp a =
      let start : PortState = record {
        owned = dp.owned0;
        started = dp.started0;
        closed = dp.port_stats.ports_closed;
        first_error = pos 0;
      } in
      close_port-done s.stop1 s.close1 _ a.2 a.3 ∙ close_port-done s.stop0 s.close0 start a.0 a.1

  free_pool-done :
      (out : ℤ × Dp api) → s.in_use ≡ 0 → out.0 ≡ pos 0 → (free_pool api s.in_use out).0 ≡ pos 0
  unfolding free_pool
  free_pool-done (ret, dp) none_used e = ground arith

  dataplane_teardown-done :
      (dp : Dp api) → AllSucceed s → IsQuiet dp → (dataplane_teardown api s dp).0 ≡ pos 0
  unfolding dataplane_teardown
  dataplane_teardown-done dp a q =
      rw (guard_passes api s dp q) (
        free_pool-done _ a.4
          (close_ports-done (rules_teardown api (record dp { ready = false })) a))

  dataplane_teardown-initialized :
      (dp : Dp api) → IsQuiet dp → (dataplane_teardown api s dp).1.initialized ≡ dp.initialized
  unfolding dataplane_teardown
  dataplane_teardown-initialized dp q = rw (guard_passes api s dp q) ((torn_down-Frame api s dp).0)

  -- Whatever a setup of an initialised and quiet dataplane comes to, a teardown whose stop and close
  -- calls all succeed, with no mbuf of the pool in use, returns 0, and a cleanup after it gives the
  -- result of the EAL's cleanup and not -EBUSY.
  pub runtime_cleanup-dataplane_teardown :
      (p : Platform) (there : Bool) (n : ℕ) (result : ℤ) (dp : Dp api)
      → dp.initialized ≡ true
      → IsQuiet dp
      → AllSucceed s
      → let after = dataplane_teardown api s (dataplane_setup api p there n dp).1 in
        (after.0 ≡ pos 0) × ((runtime_cleanup api result after.1).0 ≡ result)
  runtime_cleanup-dataplane_teardown p there n result dp on q a =
      let set = (dataplane_setup api p there n dp).1 in
      let (quiet, same, outcome) = dataplane_setup-Outcome api p there n dp q in
      let zero_code = dataplane_teardown-done set a quiet in
      let released =
        (dataplane_teardown-IsReleased api s set (inl a.0, inl a.1, inl a.2, inl a.3) quiet).0
          zero_code in
      let still_on = dataplane_teardown-initialized set quiet ∙ same ∙ on in
      (
        zero_code,
        (runtime_cleanup-IsReleased api result (dataplane_teardown api s set).1 still_on).1
            released,
      )
