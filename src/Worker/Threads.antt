-- ===== src/Worker/Threads.antt =====
-- The invariant of the threads of dataplane/native/dp_worker.c, and the turns that keep it.
use mathlib.Core.Path.{subst}
use dpdk_high_speed_flow_rou.Prelude.{
  ℕ, zero, suc, ◌+◌, ◌^◌, ◌≤◌, ◌<◌, ◌≡◌, ◌⊎◌, ◌↔◌, sym, Bool, true, false, List, [], ◌∷◌, some,
  arith, length, get_elem?, get_elem?-set, set, eq_of_some, ◌≢◌, ℕ_discrete, none-ne_some,
}
use dpdk_high_speed_flow_rou.Tables.{TableApi}
use dpdk_high_speed_flow_rou.State.{Dp, WorkerCtx}
use dpdk_high_speed_flow_rou.Worker.Run.{
  Thread, parked, called, counted, looping, done, Main, launches, serves, joins, returned, RunState,
}
use dpdk_high_speed_flow_rou.Worker.Step.{is_parked, is_done, is_looping, active, reading}

-- Thread `j` and its context, where those of `[lo, hi)` are launched and not joined.
pub record Slot (lo hi : ℕ) (stop : Bool) (j : ℕ) (t : Thread) (w : WorkerCtx) : Type 0 where
  pub inside : lo ≤ j → j < hi → is_parked t ≡ false
  pub outside : (j < lo) ⊎ (hi ≤ j) → (is_parked t ≡ true) ⊎ (is_done t ≡ true)
  pub reader : w.reader_registered ≡ is_looping t
  pub launched : w.launched ≡ true → (lo ≤ j) × (j < hi)
  pub stopped : is_done t ≡ true → stop ≡ true

abbrev pub AreSlots : ℕ → ℕ → Bool → List Thread → List WorkerCtx → Type 0
AreSlots lo hi stop ts ws =
    (j : ℕ) (t : Thread) (w : WorkerCtx)
    → get_elem? ts j ≡ some t
    → get_elem? ws j ≡ some w
    → Slot lo hi stop j t w

abbrev pub total : (Thread → ℕ) → List Thread → ℕ
total f [] = 0
total f (t ∷ ts) = f t + total f ts

pub total-set :
    (f : Thread → ℕ) (ts : List Thread) (i : ℕ) (t u : Thread)
    → get_elem? ts i ≡ some t
    → total f (set ts i u) + f t ≡ total f ts + f u
total-set f [] i t u e = absurd (none-ne_some e)
total-set f (x ∷ ts) zero t u e = let same : x ≡ t = eq_of_some e in rw same (omega arith)
total-set f (x ∷ ts) (suc i) t u e = omega (arith, total-set f ts i t u e)

pub total_le :
    (f : Thread → ℕ) → ((t : Thread) → f t ≤ 1) → (ts : List Thread) → total f ts ≤ length ts
total_le f one [] = omega arith
total_le f one (t ∷ ts) = omega (arith, one t, total_le f one ts)

pub active_one : (t : Thread) → active t ≤ 1
active_one parked = omega arith
active_one called = omega arith
active_one counted = omega arith
active_one looping = omega arith
active_one (done ret) = omega arith

pub reading_one : (t : Thread) → reading t ≤ 1
reading_one parked = omega arith
reading_one called = omega arith
reading_one counted = omega arith
reading_one looping = omega arith
reading_one (done ret) = omega arith

pub below {ℓ} : {A : Type ℓ} (xs : List A) (n : ℕ) (x : A) → get_elem? xs n ≡ some x → n < length xs
below [] n x e = absurd (none-ne_some e)
below (y ∷ xs) zero x e = omega arith
below (y ∷ xs) (suc n) x e = omega (arith, below xs n x e)

-- Another thread and context at `k`, which may be the next to launch or to join.
pub set-AreSlots :
    (ts : List Thread) (ws : List WorkerCtx) (k lo hi lo' hi' : ℕ) (stop stop' : Bool) (t : Thread)
    (w : WorkerCtx)
    → k < length ts
    → k < length ws
    → AreSlots lo hi stop ts ws
    → Slot lo' hi' stop' k t w
    → (stop ≡ true → stop' ≡ true)
    → ((j : ℕ) → j < length ws → j ≢ k → ((lo ≤ j) × (j < hi)) ↔ ((lo' ≤ j) × (j < hi')))
    → AreSlots lo' hi' stop' (set ts k t) (set ws k w)
set-AreSlots ts ws k lo hi lo' hi' stop stop' t w kt kw slots here keeps same j u v at av =
    elim (ℕ_discrete k j) [
      | yes e ↦
          let is_t : some t ≡ some u = ground (arith, get_elem?-set ts k j t kt) in
          let is_w : some w ≡ some v = ground (arith, get_elem?-set ws k j w kw) in
          subst (Slot lo' hi' stop' j u) (eq_of_some is_w) (
            subst (λ (x : Thread). Slot lo' hi' stop' j x w) (eq_of_some is_t)
              (subst (λ (x : ℕ). Slot lo' hi' stop' x t w) e here))
      | no other ↦
          let is_u : get_elem? ts j ≡ some u = ground (arith, get_elem?-set ts k j t kt) in
          let is_v : get_elem? ws j ≡ some v = ground (arith, get_elem?-set ws k j w kw) in
          let s = slots j u v is_u is_v in
          let range = same j (below ws j v is_v) (λ e. other (sym e)) in
          record {
            inside = λ low high. let old = range.1 (low, high) in s.inside old.0 old.1;
            outside = λ out. s.outside (ground (arith, range.0));
            reader = s.reader;
            launched = λ l. range.0 (s.launched l);
            stopped = λ d. keeps (s.stopped d);
          }
    ]

-- The workers that are launched and not joined.
abbrev pub low : Main → ℕ
low (launches i) = 1
low serves = 0
low (joins i upto first_error) = i
low (returned ret) = 0

abbrev pub high : Main → ℕ → ℕ
high (launches i) n = i
high serves n = n
high (joins i upto first_error) n = upto
high (returned ret) n = 0

-- Behind the workers the flag is set.
abbrev pub Phase : {api : TableApi} → Main → Dp api → Type 0
Phase (launches i) dp = 1 ≤ i
Phase serves dp = Unit
Phase (joins i upto first_error) dp = (1 ≤ i) × (upto ≤ length dp.workers) × (dp.stop ≡ true)
Phase (returned ret) dp = (dp.stop ≡ true) × (dp.running ≡ false)

pub record IsRunning {api : TableApi} (s : RunState api) : Type 0 where
  pub size : length s.threads ≡ length s.dp.workers
  pub some_worker : 1 ≤ length s.dp.workers
  pub few : length s.dp.workers < 2 ^ 32
  pub active_sum : s.dp.active_workers ≡ total active s.threads
  pub reading_sum : s.dp.registered_readers ≡ total reading s.threads
  pub phase : Phase s.main s.dp
  pub slots :
      AreSlots (low s.main) (high s.main (length s.dp.workers)) s.dp.stop s.threads s.dp.workers
