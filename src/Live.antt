-- ===== src/Live.antt =====
-- Workers that run while rules are published: the rounds of `dp_worker_run` in
-- dataplane/native/dp_worker.c beside `dp_publish_rules` of dp_lookup.c, in any interleaving. A round is
-- one step of its worker, from the load of the snapshot on taken apart; a read of a snapshot that was
-- freed is a fault. `rules` keeps for each generation the arrays that it was built from.
pub mod Invariant
pub mod Rounds
pub mod Safety
pub mod Ending
pub mod Leaving
use dpdk_high_speed_flow_rou.Prelude.{
  ℕ, suc, ◌<◌, ◌≡◌, ◌≤◌, ◌^◌, Bool, true, false, List, [], ◌++◌, Option, none, some, All, ◌>>=◌,
  if◌then◌else◌,
}
use dpdk_high_speed_flow_rou.Packet.{Meta, Mbuf, IsMbuf}
use dpdk_high_speed_flow_rou.Tables.{TableApi}
use dpdk_high_speed_flow_rou.Snapshot.Types.{World, Grants, Snapshot, elements}
use dpdk_high_speed_flow_rou.Snapshot.Success.{Provided}
use dpdk_high_speed_flow_rou.Action.{Checksums}
use dpdk_high_speed_flow_rou.Stats.{PacketStats, zero_stats}
use dpdk_high_speed_flow_rou.Tx.{addrs}
use dpdk_high_speed_flow_rou.Control.{RuleArrays, build}
use dpdk_high_speed_flow_rou.Worker.Poll.{Polled, poll}
use dpdk_high_speed_flow_rou.Rcu.Qsbr.{QsbrApi}
use dpdk_high_speed_flow_rou.Rcu.{
  Reader, off, idle, holding, Writer, free, update, System, Publishes, initial,
}

-- What the caller of `dp_configure_rules` and `dp_publish_rules` has to give.
pub record IsGiven (r : RuleArrays) : Type 0 where
  pub flows : Provided r.flows r.flow_count
  pub routes : Provided r.routes r.route_count
  pub words : All (λ q. q.prefix < 2 ^ 32) (elements r.routes r.route_count)

module _ (api : TableApi) (q : QsbrApi) where
  -- The shared state with the snapshots by their generation, and of each worker its counters and the
  -- packets that it received, that the driver took, and that were freed.
  pub record Running : Type 0 where
    pub rcu : System q
    pub store : ℕ → Option (Snapshot api)
    pub rules : ℕ → RuleArrays
    pub stats : ℕ → PacketStats
    pub received : ℕ → List ℕ
    pub accepted : ℕ → List ℕ
    pub freed : ℕ → List ℕ
    pub fault : Bool

  -- The snapshot behind a pointer: there is none once it is freed.
  abbrev pub deref : Running → ℕ → Option (Snapshot api)
  deref s g = if s.rcu.live g then s.store g else none

  -- A snapshot of the arrays.
  abbrev pub BuiltFrom : RuleArrays → ℕ → Snapshot api → Type 0
  BuiltFrom r generation t =
      (g : Grants) × (w : World) × IsGiven r × ((build api g r generation w).result ≡ some t)

  -- What is known behind a round.
  unfoldable pub noted : Running → ℕ → List Mbuf → Option Polled → Running
  noted s i pkts none = record s { fault = true }
  noted s i pkts (some p) = record s {
    rcu = record s.rcu { qsbr = q.quiescent i s.rcu.qsbr; reader = update s.rcu.reader i idle };
    stats = update s.stats i p.stats;
    received = update s.received i (s.received i ++ addrs pkts);
    accepted = update s.accepted i (s.accepted i ++ p.accepted);
    freed = update s.freed i (s.freed i ++ p.freed);
  }

  -- After `dp_configure_rules` has built generation 1, with the counters at zero.
  abbrev pub started : ℕ → Snapshot api → RuleArrays → Running
  started n t r = record {
    rcu = initial q n q.init;
    store = update (λ g. none) 1 (some t);
    rules = λ g. r;
    stats = λ i. zero_stats;
    received = λ i. [];
    accepted = λ i. [];
    freed = λ i. [];
    fault = false;
  }

  module _ (sums : Checksums) (scratch : Meta) where
    -- The rest of a round of worker `i`, that has loaded the snapshot of generation `g`.
    unfoldable pub finish_round : Running → ℕ → ℕ → List Mbuf → (ℕ → ℕ) → Running
    unfolding noted
    finish_round s i g pkts sent = noted s i pkts (do
      t ← deref s g
      poll sums api scratch (record { pkts = pkts; snapshot = some t; sent = sent }) (s.stats i))

    module _ (n : ℕ) where
      -- The steps of the publications and of the `n` workers.
      pub data Moves (s u : Running) : Type 0 where
        build_rules :
            (g : Grants)
            → (r : RuleArrays) → (w : World) → (t : Snapshot api) → (v : System q) → IsGiven r
            → s.rcu.writer ≡ free
            → (build api g r (suc s.rcu.generation) w).result ≡ some t
            → Publishes q n s.rcu v
            → u ≡ record s {
              rcu = v;
              store = update s.store (suc s.rcu.generation) (some t);
              rules = update s.rules (suc s.rcu.generation) r;
            }
            → Moves s u
        go_on :
            (v : System q)
            → (s.rcu.writer ≡ free → ⊥)
            → Publishes q n s.rcu v
            → u ≡ record s { rcu = v }
            → Moves s u
        register :
            (i : ℕ)
            → i < n
            → i < q.capacity
            → s.rcu.reader i ≡ off
            → u ≡ record s {
              rcu = record s.rcu {
                qsbr = q.register i s.rcu.qsbr;
                reader = update s.rcu.reader i idle;
              };
            }
            → Moves s u
        load :
            (i : ℕ)
            → s.rcu.reader i ≡ idle
            → u ≡ record s {
              rcu = record s.rcu { reader = update s.rcu.reader i (holding s.rcu.active) };
            }
            → Moves s u
        round :
            (i g : ℕ)
            → (pkts : List Mbuf) → (sent : ℕ → ℕ) → s.rcu.reader i ≡ holding g
            → All IsMbuf pkts
            → ((k : ℕ) → sent k ≤ k)
            → u ≡ finish_round s i g pkts sent
            → Moves s u
        unregister :
            (i : ℕ)
            → s.rcu.reader i ≡ idle
            → u ≡ record s {
              rcu = record s.rcu {
                qsbr = q.unregister i s.rcu.qsbr;
                reader = update s.rcu.reader i off;
              };
            }
            → Moves s u

      pub data Runs (s : Running) : Running → Type 0 where
        still : Runs s s
        more : {t u : Running} → Runs s t → Moves t u → Runs s u
