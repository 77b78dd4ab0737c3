-- ===== src/Worker/Advance.antt =====
-- Every turn of dp_dataplane_run and of dp_worker_run keeps the invariant of the threads.
use dpdk_high_speed_flow_rou.Prelude.{
  ℕ, ◌+◌, ◌≤◌, ◌<◌, ◌≡◌, refl, Bool, true, false, List, some, arith, length, length-set, get_elem?,
  get_elem?-lt, Bool-cases, inl, inr, ℤ, is_zero, ltb,
}
use dpdk_high_speed_flow_rou.Tables.{TableApi}
use dpdk_high_speed_flow_rou.State.{Dp, WorkerCtx}
use dpdk_high_speed_flow_rou.Worker.Run.{
  Thread, parked, called, counted, looping, done, Main, launches, serves, joins, returned,
  launch_result, launch_worker, call_first, end_first, join_worker, main_turn, store_launched,
  keep_first,
}
use dpdk_high_speed_flow_rou.Worker.Step.{OnSome}
use dpdk_high_speed_flow_rou.Worker.Threads.{IsRunning}
use dpdk_high_speed_flow_rou.Worker.Turned.{Turned, here, call-IsRunning, join-IsRunning}

module _ {api : TableApi} (ts : List Thread) (dp : Dp api) where
  launch_worker-Turned :
      (answer : Bool × ℤ) (i : ℕ) (w : WorkerCtx)
      → IsRunning (here (launches i) ts dp)
      → i < length dp.workers
      → get_elem? dp.workers i ≡ some w
      → Turned (here (launches i) ts dp) (launch_worker answer i w (here (launches i) ts dp))
  unfolding launch_worker store_launched
  launch_worker-Turned answer i w run inside at =
      elim (Bool-cases (is_zero (launch_result answer))) [
        | inl fine ↦
            let least : 1 ≤ i = run.phase in
            let (next, room) =
              call-IsRunning (launches i) ts dp i w (launches (i + 1)) run inside at
                (inr (omega arith)) (omega arith) (omega arith) (λ j l o. ground arith) in
            let size = length-set dp.workers i (record w { launched = true }) in
            rw fine
              (record { running = next; keeps = λ s. s; fewer = λ s. omega (arith, room, size) })
        | inr failed ↦ rw failed (record {
          running = record {
            size = run.size;
            some_worker = run.some_worker;
            few = run.few;
            active_sum = run.active_sum;
            reading_sum = run.reading_sum;
            phase = (omega arith, omega arith, refl);
            slots = λ j t v a b.
                let slot = run.slots j t v a b in
                record {
                  inside = slot.inside;
                  outside = slot.outside;
                  reader = slot.reader;
                  launched = slot.launched;
                  stopped = λ d. refl;
                };
          };
          keeps = λ s. refl;
          fewer = λ s. omega arith;
        })
      ]

  call_first-Turned :
      (i : ℕ) (w : WorkerCtx)
      → IsRunning (here (launches i) ts dp)
      → length dp.workers ≤ i
      → get_elem? dp.workers 0 ≡ some w
      → Turned (here (launches i) ts dp) (call_first w (here (launches i) ts dp))
  unfolding call_first store_launched
  call_first-Turned i w run full at =
      let some_worker : 0 < length dp.workers = omega (arith, run.some_worker) in
      let (next, room) =
        call-IsRunning (launches i) ts dp 0 w serves run some_worker at (inl (omega arith))
          (omega arith) tt (λ j l o. ground arith) in
      let size = length-set dp.workers 0 (record w { launched = true }) in
      record { running = next; keeps = λ s. s; fewer = λ s. omega (arith, room, size) }

  end_first-Turned :
      (t : Thread) (w : WorkerCtx)
      → IsRunning (here serves ts dp)
      → get_elem? ts 0 ≡ some t
      → get_elem? dp.workers 0 ≡ some w
      → OnSome (Turned (here serves ts dp)) (end_first t w (here serves ts dp))
  unfolding end_first store_launched
  end_first-Turned (done ret) w run held at =
      let size = length-set dp.workers 0 (record w { launched = false }) in
      let stop : dp.stop ≡ true = (run.slots 0 (done ret) w held at).stopped refl in
      record {
        running =
            join-IsRunning serves ts dp 0 ret w (joins 1 (length dp.workers) _) run
              (omega (arith, run.some_worker)) held at (inl (omega arith))
              (omega arith, omega (arith, size), stop) (λ j l o. ground arith);
        keeps = λ s. s;
        fewer = λ s. omega (arith, size);
      }
  end_first-Turned parked w run held at = tt
  end_first-Turned called w run held at = tt
  end_first-Turned counted w run held at = tt
  end_first-Turned looping w run held at = tt

  join_worker-Turned :
      (i upto : ℕ) (e : ℤ) (t : Thread) (w : WorkerCtx)
      → IsRunning (here (joins i upto e) ts dp)
      → i < upto
      → get_elem? ts i ≡ some t
      → get_elem? dp.workers i ≡ some w
      → OnSome
          (Turned (here (joins i upto e) ts dp))
          (join_worker i upto e t w (here (joins i upto e) ts dp))
  unfolding join_worker store_launched
  join_worker-Turned i upto e (done ret) w run more held at =
      let size = length-set dp.workers i (record w { launched = false }) in
      let (least, most, stop) = run.phase in
      record {
        running =
            join-IsRunning (joins i upto e) ts dp i ret w (joins (i + 1) upto (keep_first e ret))
              run (omega arith) held at (inl (omega arith)) (omega arith, omega (arith, size), stop)
              (λ j l o. ground arith);
        keeps = λ s. s;
        fewer = λ s. omega (arith, size);
      }
  join_worker-Turned i upto e parked w run more held at = tt
  join_worker-Turned i upto e called w run more held at = tt
  join_worker-Turned i upto e counted w run more held at = tt
  join_worker-Turned i upto e looping w run more held at = tt

  -- The end of the loop that joins.
  return-Turned :
      (i upto : ℕ) (e : ℤ)
      → IsRunning (here (joins i upto e) ts dp)
      → upto ≤ i
      → Turned (here (joins i upto e) ts dp) (here (returned e) ts (record dp { running = false }))
  return-Turned i upto e run full = record {
    running = record {
      size = run.size;
      some_worker = run.some_worker;
      few = run.few;
      active_sum = run.active_sum;
      reading_sum = run.reading_sum;
      phase = (run.phase.2, refl);
      slots = λ j t v a b.
          let slot = run.slots j t v a b in
          record {
            inside = λ l h. absurd (omega arith);
            outside = λ o. slot.outside (ground arith);
            reader = slot.reader;
            launched = λ l. absurd (omega (arith, slot.launched l));
            stopped = slot.stopped;
          };
    };
    keeps = λ s. s;
    fewer = λ s. omega arith;
  }

  pub main_turn-Turned :
      (answer : Bool × ℤ) (m : Main)
      → IsRunning (here m ts dp)
      → OnSome (Turned (here m ts dp)) (main_turn answer m (here m ts dp))
  unfolding main_turn
  main_turn-Turned answer (launches i) run = elim (Bool-cases (ltb i (length dp.workers))) [
    | inl more ↦
        let inside : i < length dp.workers = ground arith in
        let (w, at) = get_elem?-lt dp.workers i inside in
        rw (more, at) (launch_worker-Turned answer i w run inside at)
    | inr full ↦
        let (w, at) = get_elem?-lt dp.workers 0 (omega (arith, run.some_worker)) in
        rw (full, at) (call_first-Turned i w run (ground arith) at)
  ]
  main_turn-Turned answer serves run =
      let (t, held) = get_elem?-lt ts 0 (omega (arith, run.size, run.some_worker)) in
      let (w, at) = get_elem?-lt dp.workers 0 (omega (arith, run.some_worker)) in
      rw (held, at) (end_first-Turned t w run held at)
  main_turn-Turned answer (joins i upto e) run = elim (Bool-cases (ltb i upto)) [
    | inl more ↦
        let inside : i < upto = ground arith in
        let (least, most, stop) = run.phase in
        let (t, held) = get_elem?-lt ts i (omega (arith, run.size)) in
        let (w, at) = get_elem?-lt dp.workers i (omega arith) in
        rw (more, held, at) (join_worker-Turned i upto e t w run inside held at)
    | inr full ↦ rw full (return-Turned i upto e run (ground arith))
  ]
  main_turn-Turned answer (returned ret) run = tt
