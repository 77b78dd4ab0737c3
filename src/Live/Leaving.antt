-- ===== src/Live/Leaving.antt =====
-- The workers of the running dataplane leave, each from wherever it stands.
use mathlib.Core.Path.{subst}
use dpdk_high_speed_flow_rou.Prelude.{
  ℕ, zero, suc, ◌<◌, ◌≡◌, ◌≤◌, refl, sym, ◌∙◌, [], some, arith, ℕ_discrete, dec_lt,
}
use dpdk_high_speed_flow_rou.Packet.{Meta}
use dpdk_high_speed_flow_rou.Tables.{TableApi, TableLaws}
use dpdk_high_speed_flow_rou.Action.{Checksums}
use dpdk_high_speed_flow_rou.Rcu.Qsbr.{QsbrApi, QsbrLaws}
use dpdk_high_speed_flow_rou.Rcu.{Reader, off, idle, holding, update}
use dpdk_high_speed_flow_rou.Rcu.Safety.{update_self, update_other}
use dpdk_high_speed_flow_rou.Live.{Running, noted, Moves, round, unregister, Runs, still, more}
use dpdk_high_speed_flow_rou.Live.Invariant.{LiveInv}
use dpdk_high_speed_flow_rou.Live.Rounds.{round-noted, Moves-LiveInv}

module _ {api : TableApi} {q : QsbrApi} (reading : QsbrLaws q) (n : ℕ) (sums : Checksums)
    (laws : TableLaws api) (scratch : Meta) where
  abbrev pub Goes : Running api q → Running api q → Type 0
  Goes s u = Runs api q sums scratch n s u

  -- The workers below `k` have left, and the publication stands where it stood.
  record Left (k : ℕ) (s u : Running api q) : Type 0 where
    goes : Goes s u
    inv : LiveInv reading n u
    gone : (i : ℕ) → i < k → u.rcu.reader i ≡ off
    writer : u.rcu.writer ≡ s.rcu.writer

  -- A worker between two rounds leaves.
  leave_idle :
      (k : ℕ) (s u : Running api q)
      → Left k s u
      → u.rcu.reader k ≡ idle
      → (v : Running api q) × Left (suc k) s v
  leave_idle k s u l at =
      let v : Running api q = record u {
        rcu = record u.rcu { qsbr = q.unregister k u.rcu.qsbr; reader = update u.rcu.reader k off };
      } in
      let move : Moves api q sums scratch n u v = unregister k at refl in
      (
        v,
        record {
          goes = more l.goes move;
          inv = Moves-LiveInv reading n sums laws scratch move l.inv;
          gone = λ i h. elim (ℕ_discrete k i) [
            | yes e ↦
                subst (λ (j : ℕ). update u.rcu.reader k off j ≡ off) e
                  (update_self u.rcu.reader k off)
            | no other ↦ update_other u.rcu.reader k i off other ∙ l.gone i (omega arith)
          ];
          writer = l.writer;
        },
      )

  -- A worker in a round ends it with an empty burst.
  leave_holding :
      (k g : ℕ) (s u : Running api q)
      → Left k s u
      → u.rcu.reader k ≡ holding g
      → (v : Running api q) × Left (suc k) s v
  unfolding noted
  leave_holding k g s u l at =
      let small : (x : ℕ) → 0 ≤ x = (λ x. omega arith) in
      let (p, ended, balanced, owned) =
        round-noted reading n sums laws scratch u k g [] (λ x. 0) l.inv at tt small in
      let v = noted api q u k [] (some p) in
      let move : Moves api q sums scratch n u v = round k g [] (λ x. 0) at tt small (sym ended) in
      leave_idle k s v
        (record {
          goes = more l.goes move;
          inv = Moves-LiveInv reading n sums laws scratch move l.inv;
          gone = λ i h. elim (ℕ_discrete k i) [
            | yes e ↦ absurd (omega arith)
            | no other ↦ update_other u.rcu.reader k i idle other ∙ l.gone i h
          ];
          writer = l.writer;
        })
        (update_self u.rcu.reader k idle)

  -- The next worker leaves, wherever it stands.
  leave_one :
      (k : ℕ) (s u : Running api q) (r : Reader)
      → Left k s u
      → u.rcu.reader k ≡ r
      → (v : Running api q) × Left (suc k) s v
  leave_one k s u off l at = (
    u,
    record {
      goes = l.goes;
      inv = l.inv;
      gone = λ i h. elim (ℕ_discrete k i) [
        | yes e ↦ subst (λ (j : ℕ). u.rcu.reader j ≡ off) e at
        | no other ↦ l.gone i (omega arith)
      ];
      writer = l.writer;
    },
  )
  leave_one k s u idle l at = leave_idle k s u l at
  leave_one k s u (holding g) l at = leave_holding k g s u l at

  leave_all : (k : ℕ) (s : Running api q) → LiveInv reading n s → (v : Running api q) × Left k s v
  leave_all zero s inv =
      (s, record { goes = still; inv = inv; gone = λ i h. absurd (omega arith); writer = refl })
  leave_all (suc k) s inv =
      let (u, l) = leave_all k s inv in leave_one k s u (u.rcu.reader k) l refl

  -- All workers have left.
  pub record Deserted (s u : Running api q) : Type 0 where
    pub goes : Goes s u
    pub inv : LiveInv reading n u
    pub empty : (i : ℕ) → u.rcu.reader i ≡ off

  pub desert :
      (s : Running api q)
      → LiveInv reading n s
      → (u : Running api q) × Deserted s u × (u.rcu.writer ≡ s.rcu.writer)
  desert s inv =
      let (u, l) = leave_all n s inv in
      (
        u,
        record {
          goes = l.goes;
          inv = l.inv;
          empty = λ i. elim (dec_lt i n) [
            | yes low ↦ l.gone i low
            | no far ↦ l.inv.rcu.bounded i (omega arith)
          ];
        },
        l.writer,
      )
