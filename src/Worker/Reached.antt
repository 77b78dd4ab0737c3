-- ===== src/Worker/Reached.antt =====
-- The invariant of the threads in all that a run comes to, for dataplane/native/dp_worker.c.
use dpdk_high_speed_flow_rou.Prelude.{
  ℕ, ◌<◌, ◌≡◌, refl, sym, ◌∙◌, true, List, some, arith, length, length-set, get_elem?, set,
  Option-cases, inl, inr,
}
use dpdk_high_speed_flow_rou.Packet.{Meta}
use dpdk_high_speed_flow_rou.Tables.{TableApi}
use dpdk_high_speed_flow_rou.Action.{Checksums}
use dpdk_high_speed_flow_rou.State.{Dp, WorkerCtx}
use dpdk_high_speed_flow_rou.Worker.Stop.{dataplane_request_stop}
use dpdk_high_speed_flow_rou.Worker.Run.{
  Thread, parked, looping, Main, launches, serves, joins, returned, RunState, Turn, main_turn,
  worker_run, worker_turn, Turns, by_main, by_worker, Reaches, begins, turns, asks,
}
use dpdk_high_speed_flow_rou.Worker.Step.{
  active, reading, left, OnSome, on_some, Stepped, worker_run-Stepped,
}
use dpdk_high_speed_flow_rou.Worker.Threads.{
  total-set, total_le, active_one, reading_one, Phase, IsRunning, below,
}
use dpdk_high_speed_flow_rou.Worker.Turned.{Turned, here, set-IsRunning}
use dpdk_high_speed_flow_rou.Worker.Advance.{main_turn-Turned}

module _ (sums : Checksums) {api : TableApi} (scratch : Meta) where
  Phase-kept :
      (m : Main) (dp dp' : Dp api)
      → Phase m dp
      → length dp'.workers ≡ length dp.workers
      → dp'.running ≡ dp.running
      → (dp.stop ≡ true → dp'.stop ≡ true)
      → Phase m dp'
  Phase-kept (launches i) dp dp' p size running keeps = p
  Phase-kept serves dp dp' p size running keeps = tt
  Phase-kept (joins i upto e) dp dp' p size running keeps = (p.0, omega (arith, p.1), keeps p.2)
  Phase-kept (returned ret) dp dp' p size running keeps = (keeps p.0, running ∙ p.1)

  worker_turn-Turned :
      (m : Main) (ts : List Thread) (dp : Dp api) (i : ℕ) (r : Turn api)
      → IsRunning (here m ts dp)
      → OnSome (Turned (here m ts dp)) (worker_turn sums scratch i r (here m ts dp))
  unfolding worker_turn
  worker_turn-Turned m ts dp i r run = elim (Option-cases (get_elem? ts i)) [
    | inl past ↦ rw past tt
    | inr (t, held) ↦ elim (Option-cases (get_elem? dp.workers i)) [
      | inl past ↦ rw (held, past) tt
      | inr (w, at) ↦ elim (Option-cases (worker_run sums scratch i r t w dp)) [
        | inl waits ↦ rw (held, at, waits) tt
        | inr (out, took) ↦ rw (held, at, took) (turned t w out held at took)
      ]
    ]
  ]
    where
      turned :
          (t : Thread) (w : WorkerCtx) (out : Thread × Dp api)
          → get_elem? ts i ≡ some t
          → get_elem? dp.workers i ≡ some w
          → worker_run sums scratch i r t w dp ≡ some out
          → Turned (here m ts dp) (here m (set ts i out.0) out.1)
      turned t w out held at took =
          let inside = below dp.workers i w at in
          let room : i < length ts = omega (arith, run.size) in
          let low_active = total-set active ts i t parked held in
          let low_reading = total-set reading ts i t parked held in
          let high_active = total_le active active_one (set ts i looping) in
          let high_reading = total_le reading reading_one (set ts i looping) in
          let size = length-set ts i looping in
          let more_active = total-set active ts i t looping held in
          let more_reading = total-set reading ts i t looping held in
          let step : Stepped i t w dp out =
            on_some (Stepped i t w dp) (worker_run sums scratch i r t w dp) out
              (worker_run-Stepped sums scratch i r w dp t at
                (omega (arith, run.active_sum, low_active))
                (omega (arith, run.active_sum, run.size, run.few, high_active, size, more_active))
                (omega (arith, run.reading_sum, low_reading))
                (omega
                  (arith, run.reading_sum, run.size, run.few, high_reading, size, more_reading)))
              took in
          let old = run.slots i t w held at in
          let same : length out.1.workers ≡ length dp.workers =
            rw step.workers (length-set dp.workers i step.after) in
          record {
            running =
                set-IsRunning m ts dp i t out.0 step.after m out.1 run inside held step.workers
                  step.active_kept step.readers_kept
                  (Phase-kept m dp out.1 run.phase same step.running step.keeps)
                  (record {
                    inside = λ l h. step.now;
                    outside = λ o. ground (arith, old.outside o, step.was);
                    reader = step.reader old.reader;
                    launched = λ l. old.launched (sym step.launched ∙ l);
                    stopped = step.stopped;
                  })
                  step.keeps (λ j l o. ((λ x. x), λ x. x));
            keeps = step.keeps;
            fewer = λ asked.
                let lighter = step.fewer asked in
                rw same (omega (arith, total-set left ts i t out.0 held));
          }

  -- One turn of any thread.
  pub Turns-Turned : (s t : RunState api) → IsRunning s → Turns sums scratch s t → Turned s t
  Turns-Turned s t run (by_main answer u e) =
      on_some (Turned s) (main_turn answer s.main s) t
        (main_turn-Turned s.threads s.dp answer s.main run) e
  Turns-Turned s t run (by_worker i r u e) =
      on_some (Turned s) (worker_turn sums scratch i r s) t
        (worker_turn-Turned s.main s.threads s.dp i r run) e

  -- A request to stop changes the flag only.
  asked-IsRunning :
      (m : Main) (ts : List Thread) (dp : Dp api)
      → IsRunning (here m ts dp)
      → IsRunning (here m ts (dataplane_request_stop api dp))
  unfolding dataplane_request_stop
  asked-IsRunning m ts dp run = record {
    size = run.size;
    some_worker = run.some_worker;
    few = run.few;
    active_sum = run.active_sum;
    reading_sum = run.reading_sum;
    phase = Phase-kept m dp (record dp { stop = true }) run.phase refl refl (λ s. refl);
    slots = λ j t w a b.
        let slot = run.slots j t w a b in
        record {
          inside = slot.inside;
          outside = slot.outside;
          reader = slot.reader;
          launched = slot.launched;
          stopped = λ d. refl;
        };
  }

  pub Reaches-IsRunning :
      (start s : RunState api) → IsRunning start → Reaches sums scratch start s → IsRunning s
  Reaches-IsRunning start s run begins = run
  Reaches-IsRunning start s run (turns u t before turn) =
      (Turns-Turned u t (Reaches-IsRunning start u run before) turn).running
  Reaches-IsRunning start s run (asks u before) =
      asked-IsRunning u.main u.threads u.dp (Reaches-IsRunning start u run before)
