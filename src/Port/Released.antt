-- ===== src/Port/Released.antt =====
-- The teardown of the ports, and the cleanup after it: what is owned is given back.
use dpdk_high_speed_flow_rou.Prelude.{
  ◌≡◌, ◌⊎◌, ◌↔◌, refl, ◌∙◌, true, false, not, ◌||◌, none, arith, ℤ, pos, is_neg,
}
use dpdk_high_speed_flow_rou.Tables.{TableApi}
use dpdk_high_speed_flow_rou.State.{Dp}
use dpdk_high_speed_flow_rou.Control.{rules_teardown}
use dpdk_high_speed_flow_rou.Runtime.{workers_stopped}
use dpdk_high_speed_flow_rou.Runtime.Cleanup.{IsReleased}
use dpdk_high_speed_flow_rou.Port.Teardown.{
  Stops, PortState, close_port, close_ports, free_pool, dataplane_teardown,
}
use dpdk_high_speed_flow_rou.Port.Quiet.{IsQuiet}
use dpdk_high_speed_flow_rou.Runtime.Cleanup.{all_idle-All}

-- What DPDK documents of `rte_eth_dev_stop` and `rte_eth_dev_close`: 0 on success, else negative.
abbrev pub IsStatus : ℤ → Type 0
IsStatus ret = (ret ≡ pos 0) ⊎ (is_neg ret ≡ true)

-- A port is given back exactly when its calls give no error.
close_port-clean :
    (stop close : ℤ) (p : PortState)
    → IsStatus stop
    → IsStatus close
    → (p.started ≡ true → p.owned ≡ true)
    → ((close_port stop close p).first_error ≡ pos 0) ↔ (
        (p.first_error ≡ pos 0)
        × ((close_port stop close p).owned ≡ false)
        × ((close_port stop close p).started ≡ false))
unfolding close_port
close_port-clean stop close p s c h = (λ e. ground arith, λ e. ground arith)

module _ (api : TableApi) (s : Stops) where
  abbrev Gone : Dp api → Type 0
  Gone dp =
      (dp.owned0 ≡ false) × (dp.owned1 ≡ false) × (dp.started0 ≡ false) × (dp.started1 ≡ false)

  -- The answers are those that DPDK may give.
  abbrev pub AreStatus : Type 0
  AreStatus = IsStatus s.stop0 × IsStatus s.close0 × IsStatus s.stop1 × IsStatus s.close1

  close_ports-clean :
      (dp : Dp api)
      → AreStatus
      → (dp.started0 ≡ true → dp.owned0 ≡ true)
      → (dp.started1 ≡ true → dp.owned1 ≡ true)
      → ((close_ports api s dp).0 ≡ pos 0) ↔ Gone (close_ports api s dp).1
  unfolding close_ports
  close_ports-clean dp a h0 h1 =
      let start : PortState = record {
        owned = dp.owned0;
        started = dp.started0;
        closed = dp.port_stats.ports_closed;
        first_error = pos 0;
      } in
      let p = close_port s.stop0 s.close0 start in
      let second : PortState = record {
        owned = dp.owned1;
        started = dp.started1;
        closed = p.closed;
        first_error = p.first_error;
      } in
      let first = close_port-clean s.stop0 s.close0 start a.0 a.1 h0 in
      let last = close_port-clean s.stop1 s.close1 second a.2 a.3 h1 in
      (
        λ e. let l = last.0 e in let f = first.0 l.0 in (f.1, l.1, f.2, l.2),
        λ g. last.1 (first.1 (refl, g.0, g.2), g.1, g.3),
      )

  -- The pool is freed with the last port, unless it is in use.
  free_pool-clean :
      (out : ℤ × Dp api)
      → ((out.0 ≡ pos 0) ↔ Gone out.1)
      → ((free_pool api s.in_use out).0 ≡ pos 0)
        ↔ (Gone (free_pool api s.in_use out).1 × ((free_pool api s.in_use out).1.pool ≡ false))
  unfolding free_pool
  free_pool-clean (ret, dp) c = (λ e. ground arith, λ g. ground arith)

  pub guard_passes :
      (dp : Dp api) → IsQuiet dp → (dp.running || not (workers_stopped api dp)) ≡ false
  unfolding workers_stopped
  guard_passes dp q = ground (arith, (all_idle-All dp.workers).1 q.idle)

  -- After the guard: a teardown of what is quiet.
  abbrev pub torn_down : Dp api → ℤ × Dp api
  torn_down dp =
      free_pool api s.in_use (close_ports api s (rules_teardown api (record dp { ready = false })))

  -- What the teardown does to the rest of the state.
  abbrev pub Frame : Dp api → Dp api → Type 0
  Frame dp after =
      (after.initialized ≡ dp.initialized)
      × (after.running ≡ dp.running)
      × (after.active_workers ≡ dp.active_workers)
      × (after.registered_readers ≡ dp.registered_readers)
      × (after.workers ≡ dp.workers)
      × (after.active_rules ≡ none)
      × (after.rules_qsbr ≡ false)
      × (after.writer_active ≡ false)
      × (after.rules_configured ≡ false)

  free_pool-Frame :
      (before : Dp api) (out : ℤ × Dp api)
      → Frame before out.1
      → Frame before (free_pool api s.in_use out).1
  unfolding free_pool
  free_pool-Frame before (ret, dp) f = ground arith

  pub torn_down-Frame : (dp : Dp api) → Frame dp (torn_down dp).1
  torn_down-Frame dp =
      unfold close_ports rules_teardown in
      free_pool-Frame dp (close_ports api s (rules_teardown api (record dp { ready = false })))
        (refl, refl, refl, refl, refl, refl, refl, refl, refl)

  torn_down-IsReleased :
      (dp after : Dp api)
      → IsQuiet dp
      → Frame dp after
      → Gone after
      → after.pool ≡ false
      → IsReleased after
  torn_down-IsReleased dp after q f g pool = record {
    stopped = f.1 ∙ q.stopped;
    workers = f.2 ∙ q.workers;
    readers = f.3 ∙ q.readers;
    idle = rw (f.4) q.idle;
    pool = pool;
    ports = g;
    rules = f.5;
    qsbr = f.6;
    writer = f.7;
    unset = f.8;
  }

  torn_down-clean :
      (dp : Dp api)
      → AreStatus
      → IsQuiet dp
      → ((torn_down dp).0 ≡ pos 0) ↔ IsReleased (torn_down dp).1
  torn_down-clean dp a q =
      let before = rules_teardown api (record dp { ready = false }) in
      let closed =
        close_ports-clean before a (unfold rules_teardown in q.port0)
          (unfold rules_teardown in q.port1) in
      let freed = free_pool-clean (close_ports api s before) closed in
      let rest = torn_down-Frame dp in
      (
        λ e. let gone = freed.0 e in torn_down-IsReleased dp _ q rest gone.0 gone.1,
        λ r. freed.1 (r.ports, r.pool),
      )

  -- Of a dataplane where nothing runs, the teardown returns 0 exactly when it has released everything:
  -- pool, ports, rules and the QSBR variable.
  pub dataplane_teardown-IsReleased :
      (dp : Dp api)
      → AreStatus
      → IsQuiet dp
      → ((dataplane_teardown api s dp).0 ≡ pos 0) ↔ IsReleased (dataplane_teardown api s dp).1
  unfolding dataplane_teardown
  dataplane_teardown-IsReleased dp a q = rw (guard_passes dp q) (torn_down-clean dp a q)
