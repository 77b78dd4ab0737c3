-- ===== src/Port/Lifecycle.antt =====
-- What the setup of the ports comes to, on every path.
use dpdk_high_speed_flow_rou.Prelude.{
  ℕ, ◌≡◌, ◌⊎◌, refl, Bool, true, false, not, ◌||◌, List, arith, All, replicate, ltb, ◌==◌, ℤ, pos,
  is_neg, Bool-cases, inl, inr,
}
use dpdk_high_speed_flow_rou.Tables.{TableApi}
use dpdk_high_speed_flow_rou.State.{Dp, WorkerInfo, WorkerCtx, max_workers}
use dpdk_high_speed_flow_rou.Runtime.Cleanup.{IsIdle}
use dpdk_high_speed_flow_rou.Port.Workers.{worker_on, bind_queues, assigned, setup_workers}
use dpdk_high_speed_flow_rou.Port.Setup.{
  Platform, setup_port0, setup_port1, find_ports, check_devices, create_pool, make_ready,
  ◌and_then◌, dataplane_setup,
}
use dpdk_high_speed_flow_rou.Port.Quiet.{
  IsQuiet, set-IsIdle, replicate-IsIdle, assign_lcores-IsIdle, bind_queues-IsIdle,
}

-- Everything that the workers need is there.
pub record IsReady {api : TableApi} (dp : Dp api) : Type 0 where
  pub ready : dp.ready ≡ true
  pub pool : dp.pool ≡ true
  pub owned : (dp.owned0 ≡ true) × (dp.owned1 ≡ true)
  pub started : (dp.started0 ≡ true) × (dp.started1 ≡ true)
  pub distinct : (dp.port0 == dp.port1) ≡ false

module _ (api : TableApi) (before : Dp api) where
  -- What every step of the setup keeps.
  abbrev Quiet : Dp api → Type 0
  Quiet dp = IsQuiet dp × (dp.initialized ≡ before.initialized) × (dp.ready ≡ before.ready)

  -- A step that fails has kept it; one that succeeds has also done its part.
  abbrev Chain : (Dp api → Type 0) → ℤ × Dp api → Type 0
  Chain P (ret, dp) = ((is_neg ret ≡ true) × Quiet dp) ⊎ ((is_neg ret ≡ false) × Quiet dp × P dp)

  and_then-Chain :
      (P Q : Dp api → Type 0) (out : ℤ × Dp api) (next : Dp api → ℤ × Dp api)
      → Chain P out
      → ((dp : Dp api) → Quiet dp → P dp → Chain Q (next dp))
      → Chain Q (◌and_then◌ api out next)
  and_then-Chain P Q out next (inl (bad, q)) k = rw bad (inl (bad, q))
  and_then-Chain P Q out next (inr (good, q, p)) k = rw good (k out.1 q p)

  abbrev Any : Dp api → Type 0
  Any dp = Unit {0}

  abbrev Distinct : Dp api → Type 0
  Distinct dp = (dp.port0 == dp.port1) ≡ false

  abbrev Owned : Dp api → Type 0
  Owned dp = Distinct dp × (dp.pool ≡ true) × (dp.owned0 ≡ true) × (dp.owned1 ≡ true)

  abbrev Started0 : Dp api → Type 0
  Started0 dp = Owned dp × (dp.started0 ≡ true)

  abbrev Started1 : Dp api → Type 0
  Started1 dp = Started0 dp × (dp.started1 ≡ true)

  with_workers :
      (dp : Dp api) (ws : List WorkerCtx) (infos : List WorkerInfo) (n : ℕ)
      → Quiet dp
      → All IsIdle ws
      → Quiet
          (record dp { workers = ws; info = record dp.info { worker_count = n; workers = infos } })
  with_workers dp ws infos n (q, i, r) a = (
    record {
      stopped = q.stopped;
      workers = q.workers;
      readers = q.readers;
      idle = a;
      port0 = q.port0;
      port1 = q.port1;
    },
    i,
    r,
  )

  assigned-Chain :
      (socket_of : ℕ → ℤ) (n : ℕ) (out : ℤ × (ℕ × List WorkerCtx)) (dp : Dp api)
      → All IsIdle out.1.1
      → Quiet dp
      → Chain Any (assigned api socket_of n out dp)
  unfolding assigned
  assigned-Chain socket_of n (ret, (next, ws)) dp a q =
      elim (Bool-cases (is_neg ret || not (next == n))) [
        | inl bad ↦ rw bad (inl (refl, with_workers dp ws dp.info.workers dp.info.worker_count q a))
        | inr good ↦
            let (code, (bound, infos)) =
              bind_queues dp.info.socket_id socket_of ws 0 dp.info.workers in
            let kept =
              with_workers dp bound infos dp.info.worker_count q
                (bind_queues-IsIdle dp.info.socket_id socket_of ws 0 dp.info.workers a) in
            elim (Bool-cases (is_neg code)) [
              | inl e ↦ rw good (inl (e, kept))
              | inr e ↦ rw good (inr (e, kept, tt))
            ]
      ]

  setup_workers-Chain :
      (lcores : List ℕ) (socket_of : ℕ → ℤ) (n : ℕ) (dp : Dp api)
      → Quiet dp
      → Chain Any (setup_workers api lcores socket_of n dp)
  unfolding setup_workers
  setup_workers-Chain lcores socket_of n dp q =
      elim (Bool-cases (n == 0 || (ltb max_workers n || not (dp.info.lcore_count == n)))) [
        | inl bad ↦ rw bad (inl (refl, q))
        | inr good ↦
            let main = dp.info.main_lcore in
            rw good (
              assigned-Chain socket_of n _
                (record dp { info = record dp.info { worker_count = n } })
                (assign_lcores-IsIdle main n lcores 1 _ (
                  set-IsIdle (replicate n (worker_on 0 0)) 0 (worker_on 0 main) (refl, refl)
                    (replicate-IsIdle n)))
                (with_workers dp dp.workers dp.info.workers n q q.0.idle))
      ]

  find_ports-Chain : (p : Platform) (dp : Dp api) → Quiet dp → Chain Distinct (find_ports api p dp)
  unfolding find_ports
  find_ports-Chain p dp q = ground arith

  check_devices-Chain :
      (p : Platform) (n : ℕ) (dp : Dp api)
      → Quiet dp
      → Distinct dp
      → Chain Distinct (check_devices api p n dp)
  unfolding check_devices
  check_devices-Chain p n dp q d = ground arith

  create_pool-Chain :
      (p : Platform) (dp : Dp api)
      → Quiet dp
      → Distinct dp
      → Chain Owned (create_pool api p.pool dp)
  unfolding create_pool
  create_pool-Chain p dp q d = ground arith

  setup_port0-Chain :
      (p : Platform) (dp : Dp api)
      → Quiet dp
      → Owned dp
      → Chain Started0 (setup_port0 api p.eth0 p.failing_queue dp)
  unfolding setup_port0
  setup_port0-Chain p dp q d = ground arith

  setup_port1-Chain :
      (p : Platform) (dp : Dp api)
      → Quiet dp
      → Started0 dp
      → Chain Started1 (setup_port1 api p.eth1 p.failing_queue dp)
  unfolding setup_port1
  setup_port1-Chain p dp q d = ground arith

  -- What a setup comes to.
  abbrev pub Outcome : ℤ × Dp api → Type 0
  Outcome (ret, dp) =
      IsQuiet dp
      × (dp.initialized ≡ before.initialized)
      × (((is_neg ret ≡ true) × (dp.ready ≡ before.ready)) ⊎ ((ret ≡ pos 0) × IsReady dp))

  make_ready-Outcome :
      (out : ℤ × Dp api) → Chain Started1 out → Outcome (◌and_then◌ api out (make_ready api))
  unfolding make_ready
  make_ready-Outcome (ret, dp) (inl (bad, q)) = rw bad (q.0, q.1, inl (bad, q.2))
  make_ready-Outcome (ret, dp) (inr (good, q, p)) = rw good (
    record {
      stopped = q.0.stopped;
      workers = q.0.workers;
      readers = q.0.readers;
      idle = q.0.idle;
      port0 = q.0.port0;
      port1 = q.0.port1;
    },
    q.1,
    inr (
      refl,
      record {
        ready = refl;
        pool = p.0.0.1;
        owned = (p.0.0.2, p.0.0.3);
        started = (p.0.1, p.1);
        distinct = p.0.0.0;
      },
    ),
  )

  ports-Chain :
      (p : Platform) (n : ℕ) (out : ℤ × Dp api)
      → Chain Any out
      → Chain Started1 (
          ◌and_then◌ api
            (◌and_then◌ api
              (◌and_then◌ api
                (◌and_then◌ api (◌and_then◌ api out (find_ports api p)) (check_devices api p n))
                (create_pool api p.pool))
              (setup_port0 api p.eth0 p.failing_queue))
            (setup_port1 api p.eth1 p.failing_queue))
  ports-Chain p n out c =
      and_then-Chain Started0 Started1 _ _
        (and_then-Chain Owned Started0 _ _
          (and_then-Chain Distinct Owned _ _
            (and_then-Chain Distinct Distinct _ _
              (and_then-Chain Any Distinct out _ c (λ dp q a. find_ports-Chain p dp q))
              (check_devices-Chain p n))
            (create_pool-Chain p))
          (setup_port0-Chain p))
        (setup_port1-Chain p)

-- On every path the setup keeps the dataplane quiet, so that a teardown can follow: no worker is
-- launched, and a port that is started is owned. It ends with a negative code and `ready` as it was, or
-- with code 0, `ready` set, the pool made, and two distinct ports owned and started.
pub dataplane_setup-Outcome :
    (api : TableApi) (p : Platform) (there : Bool) (n : ℕ) (dp : Dp api)
    → IsQuiet dp
    → Outcome api dp (dataplane_setup api p there n dp)
unfolding dataplane_setup
dataplane_setup-Outcome api p there n dp q = elim (Bool-cases (not dp.initialized)) [
  | inl off ↦ rw off (q, refl, inl (refl, refl))
  | inr on ↦ elim (Bool-cases (dp.pool || dp.ready)) [
    | inl late ↦ rw (on, late) (q, refl, inl (refl, refl))
    | inr early ↦ elim (Bool-cases (not dp.rules_configured)) [
      | inl bare ↦ rw (on, early, bare) (q, refl, inl (refl, refl))
      | inr ruled ↦ elim (Bool-cases (not there)) [
        | inl nameless ↦ rw (on, early, ruled, nameless) (q, refl, inl (refl, refl))
        | inr named ↦
            rw (on, early, ruled, named)
              (make_ready-Outcome api dp _ (
                ports-Chain api dp p n _
                  (setup_workers-Chain api dp p.lcores p.socket_of n dp (q, refl, refl))))
      ]
    ]
  ]
]
