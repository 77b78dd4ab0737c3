-- ===== src/Worker/Step.antt =====
-- One turn of a worker, for the proofs about the threads of dataplane/native/dp_worker.c.
use mathlib.Core.Path.{subst}
use dpdk_high_speed_flow_rou.Prelude.{
  ℕ, zero, suc, ◌+◌, ◌^◌, ◌≤◌, ◌<◌, ◌≡◌, refl, sym, ap, Bool, true, false, not, ◌||◌, List, [], ◌∷◌,
  Option, none, some, arith, get_elem?, set, leb, Bool-cases, Option-cases, inl, inr, eq_of_some, ℤ,
  pos, is_zero, errno_or, minus, eio, enodev, errno_or-neg, none-ne_some,
}
use dpdk_high_speed_flow_rou.Packet.{Meta}
use dpdk_high_speed_flow_rou.Tables.{TableApi}
use dpdk_high_speed_flow_rou.Action.{Checksums}
use dpdk_high_speed_flow_rou.State.{Dp, WorkerCtx}
use dpdk_high_speed_flow_rou.Control.Readers.{reader_register, reader_unregister}
use dpdk_high_speed_flow_rou.Worker.Poll.{poll}
use dpdk_high_speed_flow_rou.Worker.Run.{
  Thread, parked, called, counted, looping, done, Turn, leave, register_worker, loop_turn,
  worker_run,
}

abbrev pub is_parked : Thread → Bool
is_parked parked = true
is_parked called = false
is_parked counted = false
is_parked looping = false
is_parked (done ret) = false

abbrev pub is_done : Thread → Bool
is_done parked = false
is_done called = false
is_done counted = false
is_done looping = false
is_done (done ret) = true

abbrev pub is_looping : Thread → Bool
is_looping parked = false
is_looping called = false
is_looping counted = false
is_looping looping = true
is_looping (done ret) = false

-- What a thread adds to `active_workers` and to `registered_readers`.
abbrev pub active : Thread → ℕ
active parked = 0
active called = 0
active counted = 1
active looping = 1
active (done ret) = 0

abbrev pub reading : Thread → ℕ
reading parked = 0
reading called = 0
reading counted = 0
reading looping = 1
reading (done ret) = 0

-- The turns that a worker still takes once it is to stop.
abbrev pub left : Thread → ℕ
left parked = 0
left called = 3
left counted = 2
left looping = 1
left (done ret) = 0

abbrev pub OnSome {ℓ κ} : {A : Type ℓ} → (A → Type κ) → Option A → Type κ
OnSome P none = Unit
OnSome P (some a) = P a

pub on_some {ℓ κ} :
    {A : Type ℓ} (P : A → Type κ) (o : Option A) (a : A) → OnSome P o → o ≡ some a → P a
on_some P o a p e = subst (OnSome P) e p

pub set_same {ℓ} :
    {A : Type ℓ} (xs : List A) (i : ℕ) (a : A) → get_elem? xs i ≡ some a → set xs i a ≡ xs
set_same [] i a e = absurd (none-ne_some e)
set_same (x ∷ xs) zero a e = ap (λ y. y ∷ xs) (sym (eq_of_some e))
set_same (x ∷ xs) (suc i) a e = ap (◌∷◌ x) (set_same xs i a e)

-- What a turn of worker `i` may change, from thread `t` and context `w`.
pub record Stepped {api : TableApi} (i : ℕ) (t : Thread) (w : WorkerCtx) (dp : Dp api)
    (out : Thread × Dp api) : Type 0 where
  pub after : WorkerCtx
  pub workers : out.1.workers ≡ set dp.workers i after
  pub active_kept : out.1.active_workers + active t ≡ dp.active_workers + active out.0
  pub readers_kept : out.1.registered_readers + reading t ≡ dp.registered_readers + reading out.0
  pub running : out.1.running ≡ dp.running
  pub keeps : dp.stop ≡ true → out.1.stop ≡ true
  pub reader : w.reader_registered ≡ is_looping t → after.reader_registered ≡ is_looping out.0
  pub launched : after.launched ≡ w.launched
  pub was : (is_parked t ≡ false) × (is_done t ≡ false)
  pub now : is_parked out.0 ≡ false
  pub stopped : is_done out.0 ≡ true → out.1.stop ≡ true
  pub fewer : dp.stop ≡ true → left out.0 < left t

module _ (sums : Checksums) {api : TableApi} (scratch : Meta) (i : ℕ) (r : Turn api) (w : WorkerCtx)
    (dp : Dp api) where
  called-Stepped :
      get_elem? dp.workers i ≡ some w
      → dp.active_workers + 1 < 2 ^ 32
      → OnSome (Stepped i called w dp) (worker_run sums scratch i r called w dp)
  unfolding worker_run
  called-Stepped at few = record {
    after = w;
    workers = sym (set_same dp.workers i w at);
    active_kept = omega arith;
    readers_kept = refl;
    running = refl;
    keeps = λ s. s;
    reader = λ e. e;
    launched = refl;
    was = (refl, refl);
    now = refl;
    stopped = λ e. absurd (cc);
    fewer = λ s. omega arith;
  }

  -- A worker that fails leaves, with `stop` set.
  leave-Stepped :
      (ret : ℤ)
      → 1 ≤ dp.active_workers
      → dp.active_workers < 2 ^ 32
      → Stepped i counted w dp (leave i ret w (record dp { stop = true }))
  unfolding leave
  leave-Stepped ret some_active few = record {
    after = record w { result = ret };
    workers = refl;
    active_kept = omega arith;
    readers_kept = refl;
    running = refl;
    keeps = λ s. refl;
    reader = λ e. e;
    launched = refl;
    was = (refl, refl);
    now = refl;
    stopped = λ e. refl;
    fewer = λ s. omega arith;
  }

  register_worker-Stepped :
      1 ≤ dp.active_workers
      → dp.active_workers < 2 ^ 32
      → dp.registered_readers + 1 < 2 ^ 32
      → Stepped i counted w dp (register_worker i r w dp)
  unfolding register_worker reader_register
  register_worker-Stepped some_active few readers = elim (Bool-cases r.injected) [
    | inl bad ↦ rw bad (leave-Stepped (minus eio) some_active few)
    | inr fine ↦ elim (Bool-cases (not dp.rules_qsbr || leb r.max_lcore w.info.worker_id)) [
      | inl no_qsbr ↦ rw (fine, no_qsbr) (leave-Stepped (minus enodev) some_active few)
      | inr there ↦ elim (Bool-cases (not (is_zero r.register))) [
        | inl refused ↦
            rw (fine, there, refused, errno_or-neg r.rte_errno 4)
              (leave-Stepped (errno_or r.rte_errno eio) some_active few)
        | inr registered ↦
            rw (fine, there, registered)
              (record {
                after = record w { reader_registered = true };
                workers = refl;
                active_kept = refl;
                readers_kept = omega arith;
                running = refl;
                keeps = λ s. s;
                reader = λ e. refl;
                launched = refl;
                was = (refl, refl);
                now = refl;
                stopped = λ e. absurd (cc);
                fewer = λ s. omega arith;
              })
      ]
    ]
  ]

  loop_turn-Stepped :
      1 ≤ dp.active_workers
      → dp.active_workers < 2 ^ 32
      → 1 ≤ dp.registered_readers
      → dp.registered_readers < 2 ^ 32
      → OnSome (Stepped i looping w dp) (loop_turn sums scratch i r.round w dp)
  unfolding loop_turn leave reader_unregister
  loop_turn-Stepped some_active few some_reader readers = elim (Bool-cases dp.stop) [
    | inl asked ↦ rw asked (record {
      after = record w { reader_registered = false; result = pos 0 };
      workers = refl;
      active_kept = omega arith;
      readers_kept = omega arith;
      running = refl;
      keeps = λ s. refl;
      reader = λ e. refl;
      launched = refl;
      was = (refl, refl);
      now = refl;
      stopped = λ e. refl;
      fewer = λ s. omega arith;
    })
    | inr on ↦ elim (Option-cases (poll sums api scratch r.round w.stats)) [
      | inl fault ↦ rw (on, fault) tt
      | inr (p, polled) ↦
          rw (on, polled)
            (record {
              after = record w { stats = p.stats };
              workers = refl;
              active_kept = refl;
              readers_kept = refl;
              running = refl;
              keeps = λ s. s;
              reader = λ e. e;
              launched = refl;
              was = (refl, refl);
              now = refl;
              stopped = λ e. absurd (cc);
              fewer = λ s. absurd (cc);
            })
    ]
  ]

  pub worker_run-Stepped :
      (t : Thread)
      → get_elem? dp.workers i ≡ some w
      → active t ≤ dp.active_workers
      → dp.active_workers + 1 < 2 ^ 32 + active t
      → reading t ≤ dp.registered_readers
      → dp.registered_readers + 1 < 2 ^ 32 + reading t
      → OnSome (Stepped i t w dp) (worker_run sums scratch i r t w dp)
  unfolding worker_run
  worker_run-Stepped parked at al ah rl rh = tt
  worker_run-Stepped called at al ah rl rh = called-Stepped at (omega arith)
  worker_run-Stepped counted at al ah rl rh =
      register_worker-Stepped (omega arith) (omega arith) (omega arith)
  worker_run-Stepped looping at al ah rl rh =
      loop_turn-Stepped (omega arith) (omega arith) (omega arith) (omega arith)
  worker_run-Stepped (done ret) at al ah rl rh = tt
