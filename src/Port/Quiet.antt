-- ===== src/Port/Quiet.antt =====
-- A dataplane where nothing runs, and the worker contexts that the setup leaves.
use dpdk_high_speed_flow_rou.Prelude.{
  ℕ, zero, suc, ◌≡◌, refl, true, false, List, [], ◌∷◌, arith, All, set, replicate, leb, ◌==◌, ℤ,
  Bool-cases, inl, inr,
}
use dpdk_high_speed_flow_rou.Tables.{TableApi}
use dpdk_high_speed_flow_rou.State.{Dp, WorkerInfo, WorkerCtx}
use dpdk_high_speed_flow_rou.Runtime.Cleanup.{IsIdle}
use dpdk_high_speed_flow_rou.Port.Workers.{worker_on, with_queues, assign_lcores, bind_queues}

-- Nothing runs, no worker is launched, and what is started is owned.
pub record IsQuiet {api : TableApi} (dp : Dp api) : Type 0 where
  pub stopped : dp.running ≡ false
  pub workers : dp.active_workers ≡ 0
  pub readers : dp.registered_readers ≡ 0
  pub idle : All IsIdle dp.workers
  pub port0 : dp.started0 ≡ true → dp.owned0 ≡ true
  pub port1 : dp.started1 ≡ true → dp.owned1 ≡ true

pub set-IsIdle :
    (ws : List WorkerCtx) (n : ℕ) (w : WorkerCtx)
    → IsIdle w
    → All IsIdle ws
    → All IsIdle (set ws n w)
set-IsIdle [] n w i a = tt
set-IsIdle (x ∷ ws) zero w i a = (i, a.1)
set-IsIdle (x ∷ ws) (suc n) w i a = (a.0, set-IsIdle ws n w i a.1)

pub replicate-IsIdle : (n : ℕ) → All IsIdle (replicate n (worker_on 0 0))
replicate-IsIdle zero = tt
replicate-IsIdle (suc n) = ((refl, refl), replicate-IsIdle n)

pub assign_lcores-IsIdle :
    (main count : ℕ) (lcores : List ℕ) (next : ℕ) (ws : List WorkerCtx)
    → All IsIdle ws
    → All IsIdle (assign_lcores main count lcores next ws).1.1
unfolding assign_lcores
assign_lcores-IsIdle main count [] next ws a = a
assign_lcores-IsIdle main count (l ∷ ls) next ws a =
    let skip = assign_lcores-IsIdle main count ls next ws a in
    let take_it =
      assign_lcores-IsIdle main count ls (suc next) (set ws next (worker_on next l))
        (set-IsIdle ws next (worker_on next l) (refl, refl) a) in
    elim (Bool-cases (l == main)) [
      | inl same ↦ rw same skip
      | inr other ↦ elim (Bool-cases (leb count next)) [
        | inl full ↦ rw (other, full) a
        | inr free ↦ rw (other, free) take_it
      ]
    ]

pub bind_queues-IsIdle :
    (baseline : ℤ) (socket_of : ℕ → ℤ) (ws : List WorkerCtx) (i : ℕ) (infos : List WorkerInfo)
    → All IsIdle ws
    → All IsIdle (bind_queues baseline socket_of ws i infos).1.0
unfolding bind_queues
bind_queues-IsIdle baseline socket_of [] i infos a = tt
bind_queues-IsIdle baseline socket_of (w ∷ ws) i infos a =
    let rest =
      bind_queues-IsIdle baseline socket_of ws (suc i) (set infos i (with_queues i w).info) a.1 in
    ground (arith, rest)
