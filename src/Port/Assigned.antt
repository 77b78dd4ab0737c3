-- ===== src/Port/Assigned.antt =====
-- Which lcore and which queues each worker has after `setup_workers`.
use dpdk_high_speed_flow_rou.Prelude.{
  ℕ, zero, suc, ◌+◌, ◌-◌, ◌≤◌, ◌<◌, ◌≡◌, refl, sym, ap, ◌∙◌, true, false, not, ◌||◌, List, [], ◌∷◌,
  ◌++◌, arith, length, set, replicate, All, ltb, leb, ◌==◌, if◌then◌else◌, ℤ, pos, negsuc, is_neg,
  u16, Bool-cases, inl, inr,
}
use dpdk_high_speed_flow_rou.Tables.{TableApi}
use dpdk_high_speed_flow_rou.Stats.{zero_stats}
use dpdk_high_speed_flow_rou.State.{Dp, WorkerInfo, WorkerCtx, max_workers}
use dpdk_high_speed_flow_rou.Port.Workers.{
  same_int, validate_worker_socket, worker_on, with_queues, assign_lcores, bind_queues, assigned,
  setup_workers,
}

-- The lcores but the main one, in order.
abbrev pub others : ℕ → List ℕ → List ℕ
others main [] = []
others main (l ∷ ls) = let rest = others main ls in if l == main then rest else l ∷ rest

abbrev pub worker_of : ℕ → ℕ → WorkerCtx
worker_of i lcore = record {
  info = record { worker_id = i; lcore_id = lcore; rx_queue_id = i; tx_queue_id = i };
  stats = zero_stats;
  result = pos 0;
  launched = false;
  reader_registered = false;
}

-- One worker for each lcore, numbered from `i` on.
abbrev pub workers_of : ℕ → List ℕ → List WorkerCtx
workers_of i [] = []
workers_of i (l ∷ ls) = worker_of i l ∷ workers_of (suc i) ls

abbrev plain_workers : ℕ → List ℕ → List WorkerCtx
plain_workers i [] = []
plain_workers i (l ∷ ls) = worker_on i l ∷ plain_workers (suc i) ls

abbrev blank : WorkerCtx
blank = worker_on 0 0

set-append :
    (done : List WorkerCtx) (k n : ℕ) (w : WorkerCtx)
    → length done ≡ n
    → set (done ++ replicate (suc k) blank) n w ≡ (done ++ w ∷ []) ++ replicate k blank
set-append [] k zero w e = refl
set-append [] k (suc n) w e = absurd (omega arith)
set-append (x ∷ done) k zero w e = absurd (omega arith)
set-append (x ∷ done) k (suc n) w e =
    ap (λ (l : List WorkerCtx). x ∷ l) (set-append done k n w (omega arith))

length-snoc : (done : List WorkerCtx) (w : WorkerCtx) → length (done ++ w ∷ []) ≡ suc (length done)
length-snoc [] w = refl
length-snoc (x ∷ done) w = omega (arith, length-snoc done w)

append-snoc :
    (done rest : List WorkerCtx) (w : WorkerCtx) → (done ++ w ∷ []) ++ rest ≡ done ++ w ∷ rest
append-snoc [] rest w = refl
append-snoc (x ∷ done) rest w = ap (λ (l : List WorkerCtx). x ∷ l) (append-snoc done rest w)

append-nil : (xs : List WorkerCtx) → xs ++ [] ≡ xs
append-nil [] = refl
append-nil (x ∷ xs) = ap (λ (l : List WorkerCtx). x ∷ l) (append-nil xs)

module _ (main count : ℕ) where
  -- Of the loop from `next` on: how far it comes, and the contexts that it leaves.
  abbrev Placed : List ℕ → ℕ → List WorkerCtx → ℕ → ℤ × (ℕ × List WorkerCtx) → Type 0
  Placed os next done k out =
      (length os ≤ k)
      × (out.1.0 ≡ next + length os)
      × (out.1.1 ≡ done ++ (plain_workers next os ++ replicate (k - length os) blank))

  assign_lcores-Placed :
      (lcores : List ℕ) (next k : ℕ) (done ws : List WorkerCtx)
      → length done ≡ next
      → next + k ≡ count
      → ws ≡ done ++ replicate k blank
      → is_neg (assign_lcores main count lcores next ws).0 ≡ false
      → Placed (others main lcores) next done k (assign_lcores main count lcores next ws)
  unfolding assign_lcores
  assign_lcores-Placed [] next k done ws size room e h =
      let all : k ≡ k - 0 = omega arith in
      (omega arith, omega arith, e ∙ ap (λ (j : ℕ). done ++ replicate j blank) all)
  assign_lcores-Placed (l ∷ ls) next zero done ws size room e h = elim (Bool-cases (l == main)) [
    | inl same ↦ rw same (assign_lcores-Placed ls next zero done ws size room e (rw same at h))
    | inr other ↦
        let full : leb count next ≡ true = ground arith in
        let refused : true ≡ false = rw (other, full) at h in absurd (cc)
  ]
  assign_lcores-Placed (l ∷ ls) next (suc k) done ws size room e h = elim (Bool-cases (l == main)) [
    | inl same ↦ rw same (assign_lcores-Placed ls next (suc k) done ws size room e (rw same at h))
    | inr other ↦
        let free : leb count next ≡ false = ground arith in
        let w = worker_on next l in
        let (fits, last, left) =
          assign_lcores-Placed ls (suc next) k (done ++ w ∷ []) (set ws next w)
            (length-snoc done w ∙ ap suc size) (omega arith)
            (ap (λ (t : List WorkerCtx). set t next w) e ∙ set-append done k next w size)
            (rw (other, free) at h) in
        let less : suc k - suc (length (others main ls)) ≡ k - length (others main ls) =
          omega arith in
        rw (other, free, less)
          (omega (arith, fits), omega (arith, last), left ∙ append-snoc done _ w)
  ]

with_queues-worker_on :
    (i lcore : ℕ) → i < 65536 → with_queues i (worker_on i lcore) ≡ worker_of i lcore
with_queues-worker_on i lcore h =
    let small : u16 i ≡ i = omega arith in
    ap
      (λ (q : ℕ). record (worker_of i lcore) {
        info = record { worker_id = i; lcore_id = lcore; rx_queue_id = q; tx_queue_id = q };
      })
      small

pos-ne-negsuc : {a b : ℕ} → pos a ≡ negsuc b → ⊥
pos-ne-negsuc e = cc

same_int-eq : (a b : ℤ) → same_int a b ≡ true → a ≡ b
same_int-eq (pos a) (pos b) h = ground arith
same_int-eq (negsuc a) (negsuc b) h = ground arith
same_int-eq (pos a) (negsuc b) h = cc
same_int-eq (negsuc a) (pos b) h = cc

module _ (baseline : ℤ) (socket_of : ℕ → ℤ) where
  bind_queues-workers_of :
      (ls : List ℕ) (i : ℕ) (infos : List WorkerInfo)
      → i + length ls < 65536
      → (bind_queues baseline socket_of (plain_workers i ls) i infos).0 ≡ pos 0
      → ((bind_queues baseline socket_of (plain_workers i ls) i infos).1.0 ≡ workers_of i ls)
        × All (λ l. baseline ≡ socket_of l) ls
  unfolding bind_queues validate_worker_socket
  bind_queues-workers_of [] i infos small h = (refl, tt)
  bind_queues-workers_of (l ∷ ls) i infos small h =
      elim (Bool-cases (same_int baseline (socket_of l))) [
        | inl near ↦
            let (rest, all) =
              bind_queues-workers_of ls (suc i) (set infos i (with_queues i (worker_on i l)).info)
                (omega arith) (rw near at h) in
            rw (near, rest)
              (
                ap (λ (w : WorkerCtx). w ∷ workers_of (suc i) ls)
                    (with_queues-worker_on i l (omega arith)),
                (same_int-eq baseline (socket_of l) near, all),
              )
        | inr far ↦ absurd (pos-ne-negsuc (sym (rw far at h)))
      ]

-- What `setup_workers` promises of the contexts when it succeeds.
pub record IsAssigned (lcores : List ℕ) (socket_of : ℕ → ℤ) (count main : ℕ) (baseline : ℤ)
    (ws : List WorkerCtx) : Type 0 where
  pub workers : ws ≡ workers_of 0 (main ∷ others main lcores)
  pub many : length ws ≡ count
  pub range : (1 ≤ count) × (count ≤ max_workers)
  pub near : All (λ l. baseline ≡ socket_of l) (main ∷ others main lcores)

length-workers_of : (i : ℕ) (ls : List ℕ) → length (workers_of i ls) ≡ length ls
length-workers_of i [] = refl
length-workers_of i (l ∷ ls) = omega (arith, length-workers_of (suc i) ls)

module _ (api : TableApi) (socket_of : ℕ → ℤ) where
  assigned-IsAssigned :
      (lcores : List ℕ) (k : ℕ) (out : ℤ × (ℕ × List WorkerCtx)) (dp : Dp api)
      → suc k ≤ max_workers
      → (is_neg out.0 ≡ false
          → Placed dp.info.main_lcore
              (suc k)
              (others dp.info.main_lcore lcores)
              1
              (worker_on 0 dp.info.main_lcore ∷ [])
              k
              out)
      → (assigned api socket_of (suc k) out dp).0 ≡ pos 0
      → IsAssigned lcores socket_of
          (suc k)
          dp.info.main_lcore
          dp.info.socket_id
          (assigned api socket_of (suc k) out dp).1.workers
  unfolding assigned
  assigned-IsAssigned lcores k (ret, (next, ws)) dp small placed h =
      elim (Bool-cases (is_neg ret || not (next == suc k))) [
        | inl bad ↦ absurd (pos-ne-negsuc (sym (rw bad at h)))
        | inr good ↦
            let main = dp.info.main_lcore in
            let os = others main lcores in
            let (fits, last, left) = placed (ground arith) in
            let full : length os ≡ k = ground arith in
            let none_left : k - length os ≡ 0 = omega arith in
            let whole : ws ≡ plain_workers 0 (main ∷ os) =
              left
              ∙ (rw none_left (ap (λ (l : List WorkerCtx). worker_on 0 main ∷ l) (append-nil _))) in
            let (bound, near) =
              bind_queues-workers_of dp.info.socket_id socket_of (main ∷ os) 0 dp.info.workers
                (omega arith) (rw (good, whole) at h) in
            rw (good, whole)
              (record {
                workers = bound;
                many = ap length bound ∙ length-workers_of 0 (main ∷ os) ∙ ap suc full;
                range = (omega arith, small);
                near = near;
              })
      ]

  -- Where the setup of the workers succeeds, there is one worker for each lcore, at most 4: worker 0
  -- on the main lcore and the others in the order of the lcores. Worker `i` polls queue `i` and sends
  -- on queue `i`, is not launched and has its counters at zero; all lcores are on the pool's socket.
  pub setup_workers-IsAssigned :
      (lcores : List ℕ) (count : ℕ) (dp : Dp api)
      → (setup_workers api lcores socket_of count dp).0 ≡ pos 0
      → IsAssigned lcores socket_of count dp.info.main_lcore dp.info.socket_id
          (setup_workers api lcores socket_of count dp).1.workers
  unfolding setup_workers
  setup_workers-IsAssigned lcores zero dp h = absurd (pos-ne-negsuc (sym h))
  setup_workers-IsAssigned lcores (suc k) dp h =
      elim (Bool-cases
        (suc k == 0 || (ltb max_workers (suc k) || not (dp.info.lcore_count == suc k)))) [
          | inl bad ↦ absurd (pos-ne-negsuc (sym (rw bad at h)))
          | inr good ↦ rw good (
              assigned-IsAssigned lcores k _
                (record dp { info = record dp.info { worker_count = suc k } }) (ground arith)
                (λ fine.
                  assign_lcores-Placed dp.info.main_lcore (suc k) lcores 1 k
                    (worker_on 0 dp.info.main_lcore ∷ []) _ refl (omega arith) refl fine)
                (rw good at h))
        ]
