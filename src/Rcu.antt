-- ===== src/Rcu.antt =====
-- The readers and the writer of the active rules, step by step: `dp_publish_rules` beside the workers,
-- in dataplane/native/dp_lookup.c and dp_worker.c. Steps are taken in any order, each seen at once by
-- all; snapshots go by their generation, which does not wrap here.
pub mod Qsbr
pub mod Simple
pub mod Safety
pub mod Leaks
pub mod Waiting
pub mod Progress
use dpdk_high_speed_flow_rou.Prelude.{ℕ, suc, ◌<◌, ◌≡◌, Bool, true, false, ◌==◌, if◌then◌else◌}
use Qsbr.{QsbrApi}

-- A worker: not registered, registered between two rounds, or in a round with the snapshot that it
-- loaded.
pub data Reader : Type 0 where
  off idle : Reader
  holding : (generation : ℕ) → Reader

abbrev pub is_off : Reader → Bool
is_off off = true
is_off _ = false

-- Where a call of `dp_publish_rules` stands, with what it holds: before the build, before the exchange,
-- before `rte_rcu_qsbr_start`, in the wait, before the free.
pub data Writer : Type 0 where
  free : Writer
  built : (new : ℕ) → Writer
  exchanged : (old : ℕ) → Writer
  waiting : (old token : ℕ) → Writer
  reclaiming : (old : ℕ) → Writer

abbrev pub update {ℓ} : {A : Type ℓ} → (ℕ → A) → ℕ → A → ℕ → A
update f i v j = if i == j then v else f j

-- `live` says which generations are allocated; `generation` is `dp.stats.rules_generation`.
pub record System (q : QsbrApi) : Type 0 where
  pub active : ℕ
  pub generation : ℕ
  pub live : ℕ → Bool
  pub qsbr : q.State
  pub writer : Writer
  pub reader : ℕ → Reader

module _ (q : QsbrApi) (n : ℕ) where
  -- The steps of the writer.
  pub data Publishes (s u : System q) : Type 0 where
    build :
        s.writer ≡ free
        → u ≡ record s {
          live = update s.live (suc s.generation) true;
          writer = built (suc s.generation);
        }
        → Publishes s u
    exchange :
        (new : ℕ)
        → s.writer ≡ built new
        → u ≡ record s { active = new; generation = new; writer = exchanged s.active }
        → Publishes s u
    start :
        (old : ℕ)
        → s.writer ≡ exchanged old
        → u ≡ record s { qsbr = (q.start s.qsbr).1; writer = waiting old (q.start s.qsbr).0 }
        → Publishes s u
    check :
        (old token : ℕ)
        → s.writer ≡ waiting old token
        → q.check s.qsbr token ≡ true
        → u ≡ record s { writer = reclaiming old }
        → Publishes s u
    reclaim :
        (old : ℕ)
        → s.writer ≡ reclaiming old
        → u ≡ record s { live = update s.live old false; writer = free }
        → Publishes s u

  -- The steps of one of the `n` workers.
  pub data Reads (s u : System q) : Type 0 where
    register :
        (i : ℕ)
        → i < n
        → i < q.capacity
        → s.reader i ≡ off
        → u ≡ record s { qsbr = q.register i s.qsbr; reader = update s.reader i idle }
        → Reads s u
    load :
        (i : ℕ)
        → s.reader i ≡ idle
        → u ≡ record s { reader = update s.reader i (holding s.active) }
        → Reads s u
    quiescent :
        (i : ℕ)
        → is_off (s.reader i) ≡ false
        → u ≡ record s { qsbr = q.quiescent i s.qsbr; reader = update s.reader i idle }
        → Reads s u
    unregister :
        (i : ℕ)
        → s.reader i ≡ idle
        → u ≡ record s { qsbr = q.unregister i s.qsbr; reader = update s.reader i off }
        → Reads s u

  pub data Step (s u : System q) : Type 0 where
    writes : Publishes s u → Step s u
    reads : Reads s u → Step s u

  pub data Reach (s : System q) : System q → Type 0 where
    here : Reach s s
    next : {t u : System q} → Reach s t → Step t u → Reach s u

  -- After `dp_configure_rules`: generation 1 is active, and no worker runs.
  abbrev pub initial : q.State → System q
  initial qsbr = record {
    active = 1;
    generation = 1;
    live = update (λ g. false) 1 true;
    qsbr = qsbr;
    writer = free;
    reader = λ i. off;
  }
