-- ===== src/Port/Requested.antt =====
-- A stop that is requested before the setup, while the process is still initialising.
use dpdk_high_speed_flow_rou.Prelude.{
  ℕ, ◌≡◌, refl, ◌∙◌, Bool, true, not, ◌||◌, List, Option, Bool-cases, inl, inr, ℤ, is_neg, arith,
  ◌==◌, ltb,
}
use dpdk_high_speed_flow_rou.Tables.{TableApi}
use dpdk_high_speed_flow_rou.Snapshot.Types.{Grant, granted, refused}
use dpdk_high_speed_flow_rou.State.{max_workers, Dp, WorkerCtx}
use dpdk_high_speed_flow_rou.Port.Workers.{setup_workers, assigned}
use dpdk_high_speed_flow_rou.Port.Setup.{
  Platform, EthPort, ◌and_then◌, find_ports, check_devices, create_pool, setup_port0, setup_port1,
  make_ready, dataplane_setup,
}
use dpdk_high_speed_flow_rou.Worker.Stop.{dataplane_request_stop}

module _ (api : TableApi) where
  -- The flag as it was.
  abbrev Same : Dp api → ℤ × Dp api → Type 0
  Same dp out = out.1.stop ≡ dp.stop

  and_then-Same :
      (dp : Dp api) (out : ℤ × Dp api) (next : Dp api → ℤ × Dp api)
      → Same dp out
      → ((mid : Dp api) → Same mid (next mid))
      → Same dp (◌and_then◌ api out next)
  and_then-Same dp (ret, mid) next first rest = elim (Bool-cases (is_neg ret)) [
    | inl failed ↦ rw failed first
    | inr good ↦ rw good (rest mid ∙ first)
  ]

  assigned-Same :
      (socket_of : ℕ → ℤ) (n : ℕ) (loop : ℤ × (ℕ × List WorkerCtx)) (dp : Dp api)
      → Same dp (assigned api socket_of n loop dp)
  unfolding assigned
  assigned-Same socket_of n (ret, (next, ws)) dp = ground arith

  setup_workers-Same :
      (lcores : List ℕ) (socket_of : ℕ → ℤ) (n : ℕ) (dp : Dp api)
      → Same dp (setup_workers api lcores socket_of n dp)
  unfolding setup_workers
  setup_workers-Same lcores socket_of n dp =
      elim (Bool-cases (n == 0 || (ltb max_workers n || not (dp.info.lcore_count == n)))) [
        | inl bad ↦ rw bad refl
        | inr good ↦
            rw good (
              assigned-Same socket_of n _
                (record dp { info = record dp.info { worker_count = n } }))
      ]

  find_ports-Same : (p : Platform) (dp : Dp api) → Same dp (find_ports api p dp)
  unfolding find_ports
  find_ports-Same p dp = ground arith

  check_devices-Same : (p : Platform) (n : ℕ) (dp : Dp api) → Same dp (check_devices api p n dp)
  unfolding check_devices
  check_devices-Same p n dp = ground arith

  create_pool-Same : (g : Grant) (dp : Dp api) → Same dp (create_pool api g dp)
  unfolding create_pool
  create_pool-Same granted dp = refl
  create_pool-Same (refused e) dp = refl

  setup_port0-Same : (e : EthPort) (f : Option ℕ) (dp : Dp api) → Same dp (setup_port0 api e f dp)
  unfolding setup_port0
  setup_port0-Same e f dp = ground arith

  setup_port1-Same : (e : EthPort) (f : Option ℕ) (dp : Dp api) → Same dp (setup_port1 api e f dp)
  unfolding setup_port1
  setup_port1-Same e f dp = ground arith

  -- The steps behind the guards.
  abbrev chain : Platform → ℕ → Dp api → ℤ × Dp api
  chain p n dp =
      let o₁ = setup_workers api p.lcores p.socket_of n dp in
      let o₂ = ◌and_then◌ api o₁ (find_ports api p) in
      let o₃ = ◌and_then◌ api o₂ (check_devices api p n) in
      let o₄ = ◌and_then◌ api o₃ (create_pool api p.pool) in
      let o₅ = ◌and_then◌ api o₄ (setup_port0 api p.eth0 p.failing_queue) in
      let o₆ = ◌and_then◌ api o₅ (setup_port1 api p.eth1 p.failing_queue) in
      ◌and_then◌ api o₆ (make_ready api)

  chain-Same : (p : Platform) (n : ℕ) (dp : Dp api) → Same dp (chain p n dp)
  unfolding make_ready
  chain-Same p n dp =
      let o₁ = setup_workers api p.lcores p.socket_of n dp in
      let o₂ = ◌and_then◌ api o₁ (find_ports api p) in
      let o₃ = ◌and_then◌ api o₂ (check_devices api p n) in
      let o₄ = ◌and_then◌ api o₃ (create_pool api p.pool) in
      let o₅ = ◌and_then◌ api o₄ (setup_port0 api p.eth0 p.failing_queue) in
      let o₆ = ◌and_then◌ api o₅ (setup_port1 api p.eth1 p.failing_queue) in
      let s₁ = setup_workers-Same p.lcores p.socket_of n dp in
      let s₂ = and_then-Same dp o₁ (find_ports api p) s₁ (find_ports-Same p) in
      let s₃ = and_then-Same dp o₂ (check_devices api p n) s₂ (check_devices-Same p n) in
      let s₄ = and_then-Same dp o₃ (create_pool api p.pool) s₃ (create_pool-Same p.pool) in
      let s₅ =
        and_then-Same dp o₄ (setup_port0 api p.eth0 p.failing_queue) s₄
          (setup_port0-Same p.eth0 p.failing_queue) in
      let s₆ =
        and_then-Same dp o₅ (setup_port1 api p.eth1 p.failing_queue) s₅
          (setup_port1-Same p.eth1 p.failing_queue) in
      and_then-Same dp o₆ (make_ready api) s₆ (λ mid. refl)

  dataplane_setup-Same :
      (p : Platform) (there : Bool) (n : ℕ) (dp : Dp api)
      → Same dp (dataplane_setup api p there n dp)
  unfolding dataplane_setup
  dataplane_setup-Same p there n dp =
      let ready = chain-Same p n dp in
      elim (Bool-cases (not dp.initialized)) [
        | inl bad ↦ rw bad refl
        | inr on ↦ elim (Bool-cases (dp.pool || dp.ready)) [
          | inl bad ↦ rw (on, bad) refl
          | inr fresh ↦ elim (Bool-cases (not dp.rules_configured)) [
            | inl bad ↦ rw (on, fresh, bad) refl
            | inr configured ↦ elim (Bool-cases (not there)) [
              | inl bad ↦ rw (on, fresh, configured, bad) refl
              | inr named ↦ rw (on, fresh, configured, named) ready
            ]
          ]
        ]
      ]

  -- A stop that is requested before the setup is still requested behind it, on every path.
  pub dataplane_setup-dataplane_request_stop :
      (p : Platform) (there : Bool) (worker_count : ℕ) (dp : Dp api)
      → (dataplane_setup api p there worker_count (dataplane_request_stop api dp)).1.stop ≡ true
  unfolding dataplane_request_stop
  dataplane_setup-dataplane_request_stop p there worker_count dp =
      dataplane_setup-Same p there worker_count (dataplane_request_stop api dp)
