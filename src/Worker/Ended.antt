-- ===== src/Worker/Ended.antt =====
-- The end of dp_dataplane_run of dataplane/native/dp_worker.c: what sets `stop`, and what follows.
use dpdk_high_speed_flow_rou.Prelude.{
  ℕ, ◌+◌, ◌≤◌, ◌<◌, ◌≡◌, ◌⊎◌, refl, Bool, true, false, List, [], none, some, arith, length,
  get_elem?, get_elem?-lt, set, Bool-cases, inl, inr, ℤ, pos, ltb,
}
use dpdk_high_speed_flow_rou.Packet.{Meta}
use dpdk_high_speed_flow_rou.Tables.{TableApi}
use dpdk_high_speed_flow_rou.Action.{Checksums}
use dpdk_high_speed_flow_rou.State.{Dp, WorkerCtx}
use dpdk_high_speed_flow_rou.Worker.Run.{
  Thread, parked, called, counted, looping, done, Main, launches, serves, joins, returned, RunState,
  Turn, end_first, join_worker, main_turn, loop_turn, worker_run, worker_turn, begin_run, Turns,
  by_main, by_worker, Reaches, Takes, none_more, one_more,
}
use dpdk_high_speed_flow_rou.Worker.Step.{is_parked, is_done}
use dpdk_high_speed_flow_rou.Worker.Threads.{IsRunning, below}
use dpdk_high_speed_flow_rou.Worker.Turned.{turns_left, here}
use dpdk_high_speed_flow_rou.Worker.Reached.{Turns-Turned, Reaches-IsRunning}
use dpdk_high_speed_flow_rou.Worker.Over.{IsStartable, IsOver, begin_run-IsRunning, returned-IsOver}

-- The main thread is behind a failed launch or behind worker 0.
abbrev pub is_joining : Main → Bool
is_joining (launches i) = false
is_joining serves = false
is_joining (joins i upto first_error) = true
is_joining (returned ret) = true

done_or_on : (t : Thread) → ((ret : ℤ) × (t ≡ done ret)) ⊎ (is_done t ≡ false)
done_or_on parked = inr refl
done_or_on called = inr refl
done_or_on counted = inr refl
done_or_on looping = inr refl
done_or_on (done ret) = inl (ret, refl)

-- Something has asked the workers to stop: the flag, a worker that has returned, or a main thread
-- behind a failed launch or behind worker 0.
abbrev pub IsAsked : {api : TableApi} → RunState api → Type 0
IsAsked s =
    (s.dp.stop ≡ true)
    ⊎ ((i : ℕ) × (ret : ℤ) × (get_elem? s.threads i ≡ some (done ret)))
    ⊎ (is_joining s.main ≡ true)

joining_stop :
    {api : TableApi} (m : Main) (ts : List Thread) (dp : Dp api)
    → IsRunning (here m ts dp)
    → is_joining m ≡ true
    → dp.stop ≡ true
joining_stop (launches i) ts dp run j = absurd (cc)
joining_stop serves ts dp run j = absurd (cc)
joining_stop (joins i upto e) ts dp run j = run.phase.2
joining_stop (returned ret) ts dp run j = run.phase.0

asked_stop : {api : TableApi} (s : RunState api) → IsRunning s → IsAsked s → s.dp.stop ≡ true
asked_stop s run (inl stop) = stop
asked_stop s run (inr (inl (i, ret, held))) =
    let (w, at) = get_elem?-lt s.dp.workers i (omega (arith, run.size, below s.threads i _ held)) in
    (run.slots i (done ret) w held at).stopped refl
asked_stop s run (inr (inr joining)) = joining_stop s.main s.threads s.dp run joining

module _ (sums : Checksums) {api : TableApi} (scratch : Meta) where
  abbrev idle_turn : Turn api
  idle_turn = record {
    injected = false;
    max_lcore = 0;
    register = pos 0;
    rte_errno = 0;
    round = record { pkts = []; snapshot = none; sent = λ n. 0 };
  }

  worker_run-some :
      (i : ℕ) (t : Thread) (w : WorkerCtx) (dp : Dp api)
      → dp.stop ≡ true
      → is_parked t ≡ false
      → is_done t ≡ false
      → (out : Thread × Dp api) × (worker_run sums scratch i idle_turn t w dp ≡ some out)
  unfolding worker_run loop_turn
  worker_run-some i parked w dp stop p d = absurd (cc)
  worker_run-some i called w dp stop p d = (_, refl)
  worker_run-some i counted w dp stop p d = (_, refl)
  worker_run-some i looping w dp stop p d = rw stop (_, refl)
  worker_run-some i (done ret) w dp stop p d = absurd (cc)

  abbrev CanTurn : RunState api → Type 0
  CanTurn s = (u : RunState api) × Turns sums scratch s u

  worker_can :
      (m : Main) (ts : List Thread) (dp : Dp api) (i : ℕ) (t : Thread) (w : WorkerCtx)
      → get_elem? ts i ≡ some t
      → get_elem? dp.workers i ≡ some w
      → dp.stop ≡ true
      → is_parked t ≡ false
      → is_done t ≡ false
      → CanTurn (here m ts dp)
  unfolding worker_turn
  worker_can m ts dp i t w held at stop p d =
      let (out, took) = worker_run-some i t w dp stop p d in
      let next : RunState api = record { main = m; threads = set ts i out.0; dp = out.1 } in
      (next, by_worker i idle_turn next (rw (held, at, took) refl))

  main_can :
      (m : Main) (ts : List Thread) (dp : Dp api)
      → (u : RunState api) × (main_turn (false, pos 0) m (here m ts dp) ≡ some u)
      → CanTurn (here m ts dp)
  main_can m ts dp (u, e) = (u, by_main (false, pos 0) u e)

  -- The main thread waits for worker `i` only while that has turns.
  progress :
      (m : Main) (ts : List Thread) (dp : Dp api)
      → IsRunning (here m ts dp)
      → dp.stop ≡ true
      → IsOver (here m ts dp) ⊎ CanTurn (here m ts dp)
  unfolding main_turn end_first join_worker
  progress (launches i) ts dp run stop = elim (Bool-cases (ltb i (length dp.workers))) [
    | inl more ↦
        let (w, at) = get_elem?-lt dp.workers i (ground arith) in
        inr (main_can (launches i) ts dp (rw (more, at) (_, refl)))
    | inr full ↦
        let (w, at) = get_elem?-lt dp.workers 0 (omega (arith, run.some_worker)) in
        inr (main_can (launches i) ts dp (rw (full, at) (_, refl)))
  ]
  progress serves ts dp run stop =
      let (w, at) = get_elem?-lt dp.workers 0 (omega (arith, run.some_worker)) in
      let (t, held) = get_elem?-lt ts 0 (omega (arith, run.some_worker, run.size)) in
      elim (done_or_on t) [
        | inl (ret, ended) ↦ inr (main_can serves ts dp (rw (held, at, ended) (_, refl)))
        | inr on ↦
            let there =
              (run.slots 0 t w held at).inside (omega arith) (omega (arith, run.some_worker)) in
            inr (worker_can serves ts dp 0 t w held at stop there on)
      ]
  progress (joins i upto e) ts dp run stop = elim (Bool-cases (ltb i upto)) [
    | inl more ↦
        let inside : i < upto = ground arith in
        let (least, most, set_stop) = run.phase in
        let (w, at) = get_elem?-lt dp.workers i (omega arith) in
        let (t, held) = get_elem?-lt ts i (omega (arith, run.size)) in
        elim (done_or_on t) [
          | inl (ret, ended) ↦
              inr (main_can (joins i upto e) ts dp (rw (more, held, at, ended) (_, refl)))
          | inr on ↦
              let there = (run.slots i t w held at).inside (omega arith) inside in
              inr (worker_can (joins i upto e) ts dp i t w held at stop there on)
        ]
    | inr full ↦ inr (main_can (joins i upto e) ts dp (rw full (_, refl)))
  ]
  progress (returned ret) ts dp run stop = inl (returned-IsOver ret ts dp run)

  -- Turns of a run that is to stop: no more than are left.
  Takes-left :
      (k : ℕ) (s t : RunState api)
      → IsRunning s
      → s.dp.stop ≡ true
      → Takes sums scratch k s t
      → (k + turns_left t ≤ turns_left s) × IsRunning t × (t.dp.stop ≡ true)
  Takes-left k s t run stop (none_more u) = (omega arith, run, stop)
  Takes-left k s t run stop (one_more n a b c turn more) =
      let turned = Turns-Turned sums scratch s b run turn in
      let (few, after, still) = Takes-left n b t turned.running (turned.keeps stop) more in
      (omega (arith, few, turned.fewer stop), after, still)

  -- In all that the first run of a ready and quiet dataplane with at least one worker, and fewer than
  -- 2^32, comes to, with turns and requests to stop in any order: where `stop` is set, a worker has
  -- returned, from an error or from its loop, or the main thread is behind a failed launch or behind
  -- worker 0, `stop` is set, and so it is behind every next turn.
  pub Reaches_stop :
      (dp : Dp api) (s : RunState api)
      → IsStartable dp
      → Reaches sums scratch (begin_run dp) s
      → IsAsked s
      → (s.dp.stop ≡ true) × ((t : RunState api) → Turns sums scratch s t → t.dp.stop ≡ true)
  Reaches_stop dp s start reached asked =
      let run =
        Reaches-IsRunning sums scratch (begin_run dp) s (begin_run-IsRunning dp start) reached in
      let stop = asked_stop s run asked in
      (stop, λ t turn. (Turns-Turned sums scratch s t run turn).keeps stop)

  -- In all that the first run of a ready and quiet dataplane with at least one worker, and fewer than
  -- 2^32, comes to, with turns and requests to stop in any order: once `stop` is set, a worker has
  -- returned, or the main thread is behind a failed launch or behind worker 0, at most `turns_left`
  -- more turns are taken, in whatever order the threads take them; and behind any of them a next turn
  -- is possible, or dp_dataplane_run has returned, with `running` reset and no worker counted,
  -- launched or registered.
  pub Reaches_ends :
      (dp : Dp api) (s : RunState api)
      → IsStartable dp
      → Reaches sums scratch (begin_run dp) s
      → IsAsked s
      → (k : ℕ) (t : RunState api) → Takes sums scratch k s t
      → (k ≤ turns_left s) × (IsOver t ⊎ ((u : RunState api) × Turns sums scratch t u))
  Reaches_ends dp s start reached asked k t taken =
      let run =
        Reaches-IsRunning sums scratch (begin_run dp) s (begin_run-IsRunning dp start) reached in
      let (few, after, still) = Takes-left k s t run (asked_stop s run asked) taken in
      (omega (arith, few), progress t.main t.threads t.dp after still)
