-- ===== src/Worker/Turned.antt =====
-- The turns of the threads of dataplane/native/dp_worker.c keep their invariant, and once `stop` is set
-- each is one of the turns that are left.
use mathlib.Core.Path.{subst}
use dpdk_high_speed_flow_rou.Prelude.{
  ℕ, ◌+◌, ◌-◌, ◌*◌, ◌≤◌, ◌<◌, ◌≡◌, ◌⊎◌, ◌↔◌, refl, sym, ◌∙◌, true, false, List, some, arith, length,
  length-set, get_elem?, get_elem?-lt, set, inr, ◌≢◌, ℤ,
}
use dpdk_high_speed_flow_rou.Tables.{TableApi}
use dpdk_high_speed_flow_rou.State.{Dp, WorkerCtx}
use dpdk_high_speed_flow_rou.Worker.Run.{
  Thread, parked, called, counted, looping, done, Main, launches, serves, joins, returned, RunState,
  store_launched,
}
use dpdk_high_speed_flow_rou.Worker.Step.{
  is_parked, is_done, is_looping, active, reading, left, set_same,
}
use dpdk_high_speed_flow_rou.Worker.Threads.{
  Slot, AreSlots, total, total-set, set-AreSlots, low, high, Phase, IsRunning,
}

-- The turns that are left to the main thread, with those of the workers that it still launches.
abbrev pub left_main : Main → ℕ → ℕ
left_main (launches i) n = n + 6 + 4 * (n - i)
left_main serves n = n + 2
left_main (joins i upto first_error) n = upto - i + 1
left_main (returned ret) n = 0

abbrev pub turns_left : {api : TableApi} → RunState api → ℕ
turns_left s = left_main s.main (length s.dp.workers) + total left s.threads

-- A thread that is not launched, or has returned, counts nowhere.
pub over_zero :
    (t : Thread)
    → (is_parked t ≡ true) ⊎ (is_done t ≡ true)
    → (active t ≡ 0) × (reading t ≡ 0) × (is_looping t ≡ false)
over_zero parked h = (refl, refl, refl)
over_zero called h = ground arith
over_zero counted h = ground arith
over_zero looping h = ground arith
over_zero (done ret) h = (refl, refl, refl)

-- What a turn leaves.
pub record Turned {api : TableApi} (s t : RunState api) : Type 0 where
  pub running : IsRunning t
  pub keeps : s.dp.stop ≡ true → t.dp.stop ≡ true
  pub fewer : s.dp.stop ≡ true → turns_left t < turns_left s

module _ {api : TableApi} (m : Main) (ts : List Thread) (dp : Dp api) where
  abbrev pub here : RunState api
  here = record { main = m; threads = ts; dp = dp }

  -- Another thread and context at `k`.
  pub set-IsRunning :
      (k : ℕ) (t t' : Thread) (w' : WorkerCtx) (m' : Main) (dp' : Dp api)
      → IsRunning here
      → k < length dp.workers
      → get_elem? ts k ≡ some t
      → dp'.workers ≡ set dp.workers k w'
      → dp'.active_workers + active t ≡ dp.active_workers + active t'
      → dp'.registered_readers + reading t ≡ dp.registered_readers + reading t'
      → Phase m' dp'
      → Slot (low m') (high m' (length dp.workers)) dp'.stop k t' w'
      → (dp.stop ≡ true → dp'.stop ≡ true)
      → ((j : ℕ)
          → j < length dp.workers
          → j ≢ k
          → ((low m ≤ j) × (j < high m (length dp.workers)))
            ↔ ((low m' ≤ j) × (j < high m' (length dp.workers))))
      → IsRunning (record { main = m'; threads = set ts k t'; dp = dp' })
  set-IsRunning k t t' w' m' dp' run inside at same act read phase slot keeps range =
      let size = length-set dp.workers k w' in
      let room : k < length ts = omega (arith, run.size) in
      let counts : length dp'.workers ≡ length dp.workers = rw same size in
      let slots =
        set-AreSlots ts dp.workers k (low m) (high m (length dp.workers)) (low m')
          (high m' (length dp.workers)) dp.stop dp'.stop t' w' room inside run.slots slot keeps
          range in
      record {
        size = length-set ts k t' ∙ run.size ∙ sym counts;
        some_worker = omega (arith, counts, run.some_worker);
        few = omega (arith, counts, run.few);
        active_sum = omega (arith, act, run.active_sum, total-set active ts k t t' at);
        reading_sum = omega (arith, read, run.reading_sum, total-set reading ts k t t' at);
        phase = phase;
        slots =
            subst
              (λ (xs : List WorkerCtx).
                AreSlots (low m') (high m' (length xs)) dp'.stop (set ts k t') xs)
              (sym same)
              (subst
                (λ (l : ℕ).
                  AreSlots (low m') (high m' l) dp'.stop (set ts k t') (set dp.workers k w'))
                (sym size) slots);
      }

  -- The call of worker `k`, which is not launched.
  pub call-IsRunning :
      (k : ℕ) (w : WorkerCtx) (m' : Main)
      → IsRunning here
      → k < length dp.workers
      → get_elem? dp.workers k ≡ some w
      → (k < low m) ⊎ (high m (length dp.workers) ≤ k)
      → (low m' ≤ k) × (k < high m' (length dp.workers))
      → Phase m' (store_launched k true w dp)
      → ((j : ℕ)
          → j < length dp.workers
          → j ≢ k
          → ((low m ≤ j) × (j < high m (length dp.workers)))
            ↔ ((low m' ≤ j) × (j < high m' (length dp.workers))))
      → IsRunning (record { main = m'; threads = set ts k called; dp = store_launched k true w dp })
        × (total left (set ts k called) ≤ total left ts + 3)
  unfolding store_launched
  call-IsRunning k w m' run inside at out within phase range =
      let (t, held) = get_elem?-lt ts k (omega (arith, run.size)) in
      let old = run.slots k t w held at in
      let none_there = over_zero t (old.outside out) in
      (
        set-IsRunning k t called (record w { launched = true }) m' _ run inside held refl
            (omega (arith, none_there.0)) (omega (arith, none_there.1)) phase
            (record {
              inside = λ a b. refl;
              outside = λ o. absurd (ground arith);
              reader = old.reader ∙ none_there.2;
              launched = λ l. within;
              stopped = λ d. absurd (cc);
            })
            (λ s. s) range,
        omega (arith, total-set left ts k t called held),
      )

  -- Behind worker `k`, which has returned.
  pub join-IsRunning :
      (k : ℕ) (ret : ℤ) (w : WorkerCtx) (m' : Main)
      → IsRunning here
      → k < length dp.workers
      → get_elem? ts k ≡ some (done ret)
      → get_elem? dp.workers k ≡ some w
      → (k < low m') ⊎ (high m' (length dp.workers) ≤ k)
      → Phase m' (store_launched k false w dp)
      → ((j : ℕ)
          → j < length dp.workers
          → j ≢ k
          → ((low m ≤ j) × (j < high m (length dp.workers)))
            ↔ ((low m' ≤ j) × (j < high m' (length dp.workers))))
      → IsRunning (record { main = m'; threads = ts; dp = store_launched k false w dp })
  unfolding store_launched
  join-IsRunning k ret w m' run inside held at out phase range =
      let old = run.slots k (done ret) w held at in
      subst
        (λ (xs : List Thread).
          IsRunning (record { main = m'; threads = xs; dp = store_launched k false w dp }))
        (set_same ts k (done ret) held)
        (set-IsRunning k (done ret) (done ret) (record w { launched = false }) m' _ run inside held
          refl refl refl phase
          (record {
            inside = λ a b. refl;
            outside = λ o. inr refl;
            reader = old.reader;
            launched = λ l. absurd (cc);
            stopped = old.stopped;
          })
          (λ s. s) range)
