-- ===== src/Worker/Over.antt =====
-- Where the threads begin and where they end, for dataplane/native/dp_worker.c.
use mathlib.Core.Path.{subst}
use dpdk_high_speed_flow_rou.Prelude.{
  ℕ, zero, suc, ◌^◌, ◌≤◌, ◌<◌, ◌≡◌, refl, sym, ◌∙◌, Bool, true, false, List, [], ◌∷◌, some, arith,
  length, get_elem?, get_elem?-lt, replicate, length-replicate, All, inl, inr, ℤ, none-ne_some,
  eq_of_some,
}
use dpdk_high_speed_flow_rou.Tables.{TableApi}
use dpdk_high_speed_flow_rou.State.{Dp, WorkerCtx}
use dpdk_high_speed_flow_rou.Runtime.{workers_stopped}
use dpdk_high_speed_flow_rou.Runtime.Cleanup.{IsIdle, all_idle-All}
use dpdk_high_speed_flow_rou.Port.Quiet.{IsQuiet}
use dpdk_high_speed_flow_rou.Worker.Run.{Thread, parked, returned, RunState, begin_run}
use dpdk_high_speed_flow_rou.Worker.Step.{active, reading}
use dpdk_high_speed_flow_rou.Worker.Threads.{Slot, total, IsRunning, below}
use dpdk_high_speed_flow_rou.Worker.Turned.{over_zero, here}

-- A dataplane that is set up and has not run, with at least one worker.
pub record IsStartable {api : TableApi} (dp : Dp api) : Type 0 where
  pub quiet : IsQuiet dp
  pub some_worker : 1 ≤ length dp.workers
  pub few : length dp.workers < 2 ^ 32
  pub ready : dp.ready ≡ true
  pub first : dp.ran ≡ false

-- The main thread has returned: it does not run, and the test of dp_runtime_cleanup and of the
-- teardown finds all workers stopped.
pub record IsOver {api : TableApi} (s : RunState api) : Type 0 where
  pub ret : ℤ
  pub main : s.main ≡ returned ret
  pub running : s.dp.running ≡ false
  pub stopped : workers_stopped api s.dp ≡ true

replicate_parked : (n j : ℕ) (t : Thread) → get_elem? (replicate n parked) j ≡ some t → parked ≡ t
replicate_parked zero j t e = absurd (none-ne_some e)
replicate_parked (suc n) zero t e = eq_of_some e
replicate_parked (suc n) (suc j) t e = replicate_parked n j t e

total_zero :
    (f : Thread → ℕ) (ts : List Thread)
    → ((j : ℕ) (t : Thread) → get_elem? ts j ≡ some t → f t ≡ 0)
    → total f ts ≡ 0
total_zero f [] h = refl
total_zero f (t ∷ ts) h = omega (arith, h 0 t refl, total_zero f ts (λ j u e. h (suc j) u e))

IsIdle-at :
    (ws : List WorkerCtx) (j : ℕ) (w : WorkerCtx)
    → All IsIdle ws
    → get_elem? ws j ≡ some w
    → IsIdle w
IsIdle-at [] j w a e = absurd (none-ne_some e)
IsIdle-at (x ∷ ws) zero w a e = subst IsIdle (eq_of_some e) a.0
IsIdle-at (x ∷ ws) (suc j) w a e = IsIdle-at ws j w a.1 e

All-IsIdle_from :
    (ws : List WorkerCtx)
    → ((j : ℕ) (w : WorkerCtx) → get_elem? ws j ≡ some w → IsIdle w)
    → All IsIdle ws
All-IsIdle_from [] h = tt
All-IsIdle_from (w ∷ ws) h = (h 0 w refl, All-IsIdle_from ws (λ j v e. h (suc j) v e))

pub begin_run-IsRunning : {api : TableApi} (dp : Dp api) → IsStartable dp → IsRunning (begin_run dp)
unfolding begin_run
begin_run-IsRunning dp a =
    let n = length dp.workers in
    let held = λ (j : ℕ) (t : Thread) (e : get_elem? (replicate n parked) j ≡ some t).
      replicate_parked n j t e in
    rw (a.ready, a.first)
      (record {
        size = length-replicate n parked;
        some_worker = a.some_worker;
        few = a.few;
        active_sum =
            a.quiet.workers
            ∙ sym (
                total_zero active (replicate n parked)
                  (λ j t e. subst (λ (x : Thread). active x ≡ 0) (held j t e) refl));
        reading_sum =
            a.quiet.readers
            ∙ sym (
                total_zero reading (replicate n parked)
                  (λ j t e. subst (λ (x : Thread). reading x ≡ 0) (held j t e) refl));
        phase = omega arith;
        slots = λ j t w e f.
            let idle = IsIdle-at dp.workers j w a.quiet.idle f in
            subst (λ (x : Thread). Slot 1 1 dp.stop j x w) (held j t e)
              (record {
                inside = λ l h. absurd (omega arith);
                outside = λ o. inl refl;
                reader = idle.1;
                launched = λ l. absurd (cc);
                stopped = λ d. absurd (cc);
              });
      })

not_true : (b : Bool) → (b ≡ true → 1 ≤ 0) → b ≡ false
not_true true h = absurd (omega (arith, h refl))
not_true false h = refl

-- The threads of a main thread that has returned.
pub returned-IsOver :
    {api : TableApi} (ret : ℤ) (ts : List Thread) (dp : Dp api)
    → IsRunning (here (returned ret) ts dp)
    → IsOver (here (returned ret) ts dp)
unfolding workers_stopped
returned-IsOver ret ts dp run =
    let ended = λ (j : ℕ) (t : Thread) (e : get_elem? ts j ≡ some t).
      let (w, f) = get_elem?-lt dp.workers j (omega (arith, run.size, below ts j t e)) in
      (run.slots j t w e f).outside (inr (omega arith)) in
    let none_active = total_zero active ts (λ j t e. (over_zero t (ended j t e)).0) in
    let none_reading = total_zero reading ts (λ j t e. (over_zero t (ended j t e)).1) in
    let idle = All-IsIdle_from dp.workers (λ j w f.
      let (t, e) = get_elem?-lt ts j (omega (arith, run.size, below dp.workers j w f)) in
      let slot = run.slots j t w e f in
      (
        not_true w.launched (λ l. omega (arith, slot.launched l)),
        slot.reader ∙ (over_zero t (ended j t e)).2,
      )) in
    record {
      ret = ret;
      main = refl;
      running = run.phase.1;
      stopped =
          rw
            (
              run.active_sum,
              none_active,
              run.reading_sum,
              none_reading,
              (all_idle-All dp.workers).1 idle,
            )
            refl;
    }
