-- ===== src/Live/Rounds.antt =====
-- The rounds among the other steps of the running dataplane.
use mathlib.Core.Path.{subst}
use dpdk_high_speed_flow_rou.Prelude.{
  ℕ, ◌+◌, ◌≡◌, ◌≤◌, refl, sym, ap, ◌∙◌, true, false, List, ◌++◌, none, some, All, arith, ℕ_discrete,
}
use dpdk_high_speed_flow_rou.Packet.{Meta, Mbuf, IsMbuf}
use dpdk_high_speed_flow_rou.Tables.{TableApi, TableLaws}
use dpdk_high_speed_flow_rou.Snapshot.Types.{Snapshot}
use dpdk_high_speed_flow_rou.Action.{Checksums}
use dpdk_high_speed_flow_rou.Tx.{addrs}
use dpdk_high_speed_flow_rou.Control.{RuleArrays}
use dpdk_high_speed_flow_rou.Worker.Balance.{IsBalanced}
use dpdk_high_speed_flow_rou.Worker.Settled.{occurrences, occurrences-append}
use dpdk_high_speed_flow_rou.Worker.Poll.{Round, Polled}
use dpdk_high_speed_flow_rou.Worker.Rounds.{IsFair, poll-IsSettled}
use dpdk_high_speed_flow_rou.Rcu.Qsbr.{QsbrApi, QsbrLaws}
use dpdk_high_speed_flow_rou.Rcu
use dpdk_high_speed_flow_rou.Rcu.{
  Reader, off, idle, holding, is_off, Writer, free, update, System, Publishes, initial,
}
use dpdk_high_speed_flow_rou.Rcu.Safety.{
  true-ne-false, initial-Inv, Publishes-Inv, Reads-Inv, update_self, update_other,
}
use dpdk_high_speed_flow_rou.Live.{
  Running, BuiltFrom, noted, finish_round, Moves, build_rules, go_on, register, load, round,
  unregister, Runs, still, more, started,
}
use dpdk_high_speed_flow_rou.Live.Invariant.{
  LiveInv, BuiltFrom-IsBuilt, held-deref, Publishes-live, rcu_step-LiveInv, build_rules-LiveInv,
  Reads-LiveInv,
}

module _ {api : TableApi} {q : QsbrApi} (reading : QsbrLaws q) (n : ℕ) (sums : Checksums)
    (laws : TableLaws api) (scratch : Meta) where
  -- A round ends without a fault, its counters add up, and each of its packets is taken or freed.
  pub round-noted :
      (s : Running api q) (i g : ℕ) (pkts : List Mbuf) (sent : ℕ → ℕ)
      → LiveInv reading n s
      → s.rcu.reader i ≡ holding g
      → All IsMbuf pkts
      → ((k : ℕ) → sent k ≤ k)
      → (p : Polled) × (finish_round api q sums scratch s i g pkts sent
          ≡ noted api q s i pkts (some p))
        × IsBalanced 0 0 p.stats
        × ((a : ℕ) → occurrences a p.accepted + occurrences a p.freed ≡ occurrences a (addrs pkts))
  unfolding finish_round noted
  round-noted s i g pkts sent inv h sound taken =
      let (t, is, from) = held-deref reading n s i g inv h in
      let r : Round api = record { pkts = pkts; snapshot = some t; sent = sent } in
      let fair : IsFair r = record {
        packets = sound;
        rules = (t, refl, BuiltFrom-IsBuilt reading n (s.rules g) g t from);
        taken = taken;
      } in
      let (p, out, balanced, owned) =
        poll-IsSettled sums laws scratch r (s.stats i) fair (inv.balanced i) in
      (p, rw (is, out) refl, balanced, owned)

  round-LiveInv :
      (s : Running api q) (i g : ℕ) (pkts : List Mbuf) (sent : ℕ → ℕ)
      → LiveInv reading n s
      → s.rcu.reader i ≡ holding g
      → All IsMbuf pkts
      → ((k : ℕ) → sent k ≤ k)
      → LiveInv reading n (finish_round api q sums scratch s i g pkts sent)
  unfolding noted
  round-LiveInv s i g pkts sent inv h sound taken =
      let (p, ended, balanced, owned) = round-noted s i g pkts sent inv h sound taken in
      let mine : (a : ℕ)
          → occurrences a (s.accepted i ++ p.accepted) + occurrences a (s.freed i ++ p.freed)
            ≡ occurrences a (s.received i ++ addrs pkts) =
        (λ a. omega (
          arith,
          inv.accounted i a,
          owned a,
          occurrences-append a (s.accepted i) p.accepted,
          occurrences-append a (s.freed i) p.freed,
          occurrences-append a (s.received i) (addrs pkts),
        )) in
      let on : is_off (s.rcu.reader i) ≡ false = ap is_off h in
      rw ended (record {
        rcu = Reads-Inv reading n (Rcu.quiescent i on refl) inv.rcu;
        stored = inv.stored;
        sound = inv.sound;
        balanced = λ j. elim (ℕ_discrete i j) [
          | yes e ↦
              subst (λ (k : ℕ). IsBalanced 0 0 (update s.stats i p.stats k)) e
                (rw (update_self s.stats i p.stats) balanced)
          | no other ↦ rw (update_other s.stats i j p.stats other) (inv.balanced j)
        ];
        accounted = λ j a. elim (ℕ_discrete i j) [
          | yes e ↦
              subst
                (λ (k : ℕ).
                  occurrences a (update s.accepted i (s.accepted i ++ p.accepted) k)
                    + occurrences a (update s.freed i (s.freed i ++ p.freed) k)
                  ≡ occurrences a (update s.received i (s.received i ++ addrs pkts) k))
                e
                (rw
                  (
                    update_self s.received i (s.received i ++ addrs pkts),
                    update_self s.accepted i (s.accepted i ++ p.accepted),
                    update_self s.freed i (s.freed i ++ p.freed),
                  )
                  (mine a))
          | no other ↦
              rw
                (
                  update_other s.received i j (s.received i ++ addrs pkts) other,
                  update_other s.accepted i j (s.accepted i ++ p.accepted) other,
                  update_other s.freed i j (s.freed i ++ p.freed) other,
                )
                (inv.accounted j a)
        ];
      })

  pub Moves-LiveInv :
      {s u : Running api q}
      → Moves api q sums scratch n s u
      → LiveInv reading n s
      → LiveInv reading n u
  Moves-LiveInv {s} (build_rules g r w t v given at built p e) inv =
      subst (LiveInv reading n) (sym e)
        (build_rules-LiveInv reading n s r t v inv (g, w, given, built) at p)
  Moves-LiveInv {s} (go_on v busy p e) inv = subst (LiveInv reading n) (sym e) (
      rcu_step-LiveInv reading n s v inv (Publishes-Inv reading n p inv.rcu)
        (Publishes-live n p busy))
  Moves-LiveInv {s} (register i low fits at e) inv =
      subst (LiveInv reading n) (sym e)
        (Reads-LiveInv reading n s _ inv (Rcu.register i low fits at refl) refl)
  Moves-LiveInv {s} (load i at e) inv =
      subst (LiveInv reading n) (sym e) (Reads-LiveInv reading n s _ inv (Rcu.load i at refl) refl)
  Moves-LiveInv {s} (round i g pkts sent at sound taken e) inv =
      subst (LiveInv reading n) (sym e) (round-LiveInv s i g pkts sent inv at sound taken)
  Moves-LiveInv {s} (unregister i at e) inv =
      subst (LiveInv reading n) (sym e)
        (Reads-LiveInv reading n s _ inv (Rcu.unregister i at refl) refl)

  started-LiveInv :
      (t : Snapshot api) (r : RuleArrays)
      → BuiltFrom api q r 1 t
      → LiveInv reading n (started api q n t r)
  started-LiveInv t r from = record {
    rcu = initial-Inv reading n q.init refl;
    stored = λ g l. elim (ℕ_discrete 1 g) [
      | yes e ↦
          subst
            (λ (k : ℕ).
              (x : Snapshot api) × (update (λ j. none) 1 (some t) k ≡ some x)
              × BuiltFrom api q r k x)
            e (t, refl, from)
      | no other ↦ absurd (true-ne-false (sym l ∙ update_other (λ j. false) 1 g true other))
    ];
    sound = refl;
    balanced = λ i. omega arith;
    accounted = λ i a. refl;
  }

  pub Runs-LiveInv :
      (t : Snapshot api) (r : RuleArrays) {s : Running api q}
      → BuiltFrom api q r 1 t
      → Runs api q sums scratch n (started api q n t r) s
      → LiveInv reading n s
  Runs-LiveInv t r from still = started-LiveInv t r from
  Runs-LiveInv t r from (more before move) = Moves-LiveInv move (Runs-LiveInv t r from before)
