-- ===== src/Worker/Run.antt =====
-- `dp_worker_run` and `dp_dataplane_run` of dataplane/native/dp_worker.c as threads over the state
-- that they share. A turn takes the main thread to its next call of `rte_eal_remote_launch` or
-- `rte_eal_wait_lcore`, or a worker past a store of `active_workers`, its registration, or one round
-- of its loop, which reads `stop` first; the turns of the threads interleave in any order.
-- A round that meets a fault, as `poll` has it, is no turn.
use dpdk_high_speed_flow_rou.Prelude.{
  ℕ, suc, ◌+◌, ◌-◌, ◌^◌, ◌≡◌, Bool, true, false, not, List, [], Option, none, some, if◌then◌else◌,
  ◌>>=◌, ◌&&◌, length, get_elem?, set, replicate, ℤ, pos, is_neg, is_zero, minus, u32, eio, enodev,
  ealready, ltb,
}
use dpdk_high_speed_flow_rou.Packet.{Meta}
use dpdk_high_speed_flow_rou.Tables.{TableApi}
use dpdk_high_speed_flow_rou.Action.{Checksums}
use dpdk_high_speed_flow_rou.State.{Dp, WorkerCtx}
use dpdk_high_speed_flow_rou.Control.Readers.{reader_register, reader_unregister}
use dpdk_high_speed_flow_rou.Worker.Poll.{Round, poll}
use dpdk_high_speed_flow_rou.Worker.Stop.{dataplane_request_stop}

-- Where a worker's lcore is: not launched, about to enter `dp_worker_run`, counted in
-- `active_workers`, at the test of the loop, or returned.
pub data Thread : Type 0 where
  parked : Thread
  called : Thread
  counted : Thread
  looping : Thread
  done : (ret : ℤ) → Thread

-- Where `dp_dataplane_run` is: at the launch of worker `i`, in worker 0, at the join of worker `i` of
-- those before `upto`, or returned.
pub data Main : Type 0 where
  launches : (i : ℕ) → Main
  serves : Main
  joins : (i upto : ℕ) (first_error : ℤ) → Main
  returned : (ret : ℤ) → Main

pub record RunState (api : TableApi) : Type 0 where
  pub main : Main
  pub threads : List Thread
  pub dp : Dp api

-- What a worker's turn meets: `test_worker_failure_worker` is this worker, RTE_MAX_LCORE, the answer
-- of `rte_rcu_qsbr_thread_register` with `rte_errno`, and a round of the loop.
pub record Turn (api : TableApi) : Type 0 where
  pub injected : Bool
  pub max_lcore : ℕ
  pub register : ℤ
  pub rte_errno : ℕ
  pub round : Round api

-- The answer to a launch: `test_launch_failure_worker` is this worker, and the result of
-- `rte_eal_remote_launch`.
abbrev pub launch_result : Bool × ℤ → ℤ
launch_result (injected, ret) = if injected then minus eio else ret

abbrev pub keep_first : ℤ → ℤ → ℤ
keep_first first_error ret = if is_neg ret && is_zero first_error then ret else first_error

module _ {api : TableApi} where
  -- Every way out: `active_workers` is counted down, and the context is written back.
  unfoldable pub leave : ℕ → ℤ → WorkerCtx → Dp api → Thread × Dp api
  leave i ret w dp = (
    done ret,
    record dp {
      active_workers = u32 (dp.active_workers + 2 ^ 32 - 1);
      workers = set dp.workers i (record w { result = ret });
    },
  )

  -- The part of `dp_worker_run` before its loop, behind the count.
  unfoldable pub register_worker : ℕ → Turn api → WorkerCtx → Dp api → Thread × Dp api
  unfolding leave reader_register
  register_worker i r w dp =
      if r.injected
      then leave i (minus eio) w (record dp { stop = true })
      else (let (ret, dp₁) =
            reader_register api r.max_lcore r.register r.rte_errno w.info.worker_id dp in
          if is_neg ret then leave i ret w (record dp₁ { stop = true }) else (
            looping,
            record dp₁ { workers = set dp₁.workers i (record w { reader_registered = true }) },
          ))

  -- Worker `i` as launched or not.
  unfoldable pub store_launched : ℕ → Bool → WorkerCtx → Dp api → Dp api
  store_launched i b w dp = record dp { workers = set dp.workers i (record w { launched = b }) }

  -- The launch of worker `i`, with context `w`.
  unfoldable pub launch_worker : Bool × ℤ → ℕ → WorkerCtx → RunState api → RunState api
  unfolding store_launched
  launch_worker answer i w s =
      let ret = launch_result answer in
      if is_zero ret
      then record {
        main = launches (i + 1);
        threads = set s.threads i called;
        dp = store_launched i true w s.dp;
      }
      else record s {
        main = joins 1 i (if is_neg ret then ret else minus eio);
        dp = record s.dp { stop = true };
      }

  -- Worker 0 on the main lcore.
  unfoldable pub call_first : WorkerCtx → RunState api → RunState api
  unfolding store_launched
  call_first w s = record {
    main = serves;
    threads = set s.threads 0 called;
    dp = store_launched 0 true w s.dp;
  }

  -- Behind a worker that has returned; `none` where it has not, and the main thread waits.
  unfoldable pub end_first : Thread → WorkerCtx → RunState api → Option (RunState api)
  unfolding store_launched
  end_first (done ret) w s = some (record s {
    main = joins 1 (length s.dp.workers) (if is_neg ret then ret else pos 0);
    dp = store_launched 0 false w s.dp;
  })
  end_first parked w s = none
  end_first called w s = none
  end_first counted w s = none
  end_first looping w s = none

  unfoldable pub join_worker : ℕ → ℕ → ℤ → Thread → WorkerCtx → RunState api → Option (RunState api)
  unfolding store_launched
  join_worker i upto first_error (done ret) w s = some (record s {
    main = joins (i + 1) upto (keep_first first_error ret);
    dp = store_launched i false w s.dp;
  })
  join_worker i upto first_error parked w s = none
  join_worker i upto first_error called w s = none
  join_worker i upto first_error counted w s = none
  join_worker i upto first_error looping w s = none

  -- A turn of the main thread.
  unfoldable pub main_turn : Bool × ℤ → Main → RunState api → Option (RunState api)
  unfolding launch_worker call_first end_first join_worker
  main_turn answer (launches i) s =
      if ltb i (length s.dp.workers)
      then (do w ← get_elem? s.dp.workers i; some (launch_worker answer i w s))
      else (do w ← get_elem? s.dp.workers 0; some (call_first w s))
  main_turn answer serves s = do
    t ← get_elem? s.threads 0
    w ← get_elem? s.dp.workers 0
    end_first t w s
  main_turn answer (joins i upto first_error) s =
      if ltb i upto
      then (do
        t ← get_elem? s.threads i
        w ← get_elem? s.dp.workers i
        join_worker i upto first_error t w s)
      else some (record s { main = returned first_error; dp = record s.dp { running = false } })
  main_turn answer (returned ret) s = none

  -- `dp_dataplane_run` up to its first loop; the code that it returns at once, or the threads.
  unfoldable pub begin_run : Dp api → RunState api
  begin_run dp =
      if not dp.ready
      then record { main = returned (minus enodev); threads = []; dp = dp }
      else (if dp.ran
          then record { main = returned (minus ealready); threads = []; dp = dp }
          else record {
            main = launches 1;
            threads = replicate (length dp.workers) parked;
            dp = record dp { ran = true; running = true };
          })

module _ (sums : Checksums) {api : TableApi} (scratch : Meta) where
  -- The loop of `dp_worker_run` up to its next test of `stop`, and what follows the loop.
  unfoldable pub loop_turn : ℕ → Round api → WorkerCtx → Dp api → Option (Thread × Dp api)
  unfolding leave reader_unregister
  loop_turn i round w dp =
      if dp.stop
      then some
          (leave i (pos 0) (record w { reader_registered = false }) (reader_unregister api dp))
      else (do
        p ← poll sums api scratch round w.stats
        some (looping, record dp { workers = set dp.workers i (record w { stats = p.stats }) }))

  unfoldable pub worker_run : ℕ → Turn api → Thread → WorkerCtx → Dp api → Option (Thread × Dp api)
  unfolding register_worker loop_turn
  worker_run i r parked w dp = none
  worker_run i r called w dp =
      some (counted, record dp { active_workers = u32 (dp.active_workers + 1) })
  worker_run i r counted w dp = some (register_worker i r w dp)
  worker_run i r looping w dp = loop_turn i r.round w dp
  worker_run i r (done ret) w dp = none

  -- A turn of worker `i`.
  unfoldable pub worker_turn : ℕ → Turn api → RunState api → Option (RunState api)
  unfolding worker_run
  worker_turn i r s = do
    t ← get_elem? s.threads i
    w ← get_elem? s.dp.workers i
    (t₁, dp₁) ← worker_run i r t w s.dp
    some (record s { threads = set s.threads i t₁; dp = dp₁ })

  -- A turn of `dp_dataplane_run` or of one of its workers, at any answers of the library.
  pub data Turns (s : RunState api) : RunState api → Type 0 where
    by_main :
        (answer : Bool × ℤ) (t : RunState api) → main_turn answer s.main s ≡ some t → Turns s t
    by_worker : (i : ℕ) (r : Turn api) (t : RunState api) → worker_turn i r s ≡ some t → Turns s t

  -- What a run comes to: turns in any order, between them requests to stop.
  pub data Reaches (start : RunState api) : RunState api → Type 0 where
    begins : Reaches start start
    turns : (s t : RunState api) → Reaches start s → Turns s t → Reaches start t
    asks :
        (s : RunState api)
        → Reaches start s
        → Reaches start (record s { dp = dataplane_request_stop api s.dp })

  -- So many turns.
  pub data Takes : ℕ → RunState api → RunState api → Type 0 where
    none_more : (s : RunState api) → Takes 0 s s
    one_more : (k : ℕ) (s t u : RunState api) → Turns s t → Takes k t u → Takes (suc k) s u
