-- ===== src/Live/Ending.antt =====
-- The end of the running dataplane: the workers can always leave, and a publication that is under way
-- can always end.
use mathlib.Core.Path.{subst}
use dpdk_high_speed_flow_rou.Prelude.{
  ℕ, ◌≡◌, ◌↔◌, refl, sym, ap, ◌∙◌, not, true, false, List, none, some, Option,
}
use dpdk_high_speed_flow_rou.Packet.{Meta, Mbuf}
use dpdk_high_speed_flow_rou.Tables.{TableApi, TableLaws}
use dpdk_high_speed_flow_rou.Snapshot.Types.{Snapshot}
use dpdk_high_speed_flow_rou.Action.{Checksums}
use dpdk_high_speed_flow_rou.Control.{RuleArrays}
use dpdk_high_speed_flow_rou.Worker.Poll.{Polled}
use dpdk_high_speed_flow_rou.Rcu.Qsbr.{QsbrApi, QsbrLaws}
use dpdk_high_speed_flow_rou.Rcu
use dpdk_high_speed_flow_rou.Rcu.{
  Reader, off, idle, holding, is_off, Writer, free, built, exchanged, waiting, reclaiming, update,
  System, Publishes, initial,
}
use dpdk_high_speed_flow_rou.Rcu.Progress.{offline}
use dpdk_high_speed_flow_rou.Rcu.Leaks.{
  NoLeak, kept_at, not_in_hand, Publishes-NoLeak, initial-NoLeak,
}
use dpdk_high_speed_flow_rou.Live.{
  Running, BuiltFrom, noted, finish_round, Moves, build_rules, go_on, register, load, round,
  unregister, still, more, started,
}
use dpdk_high_speed_flow_rou.Live.Rounds.{Moves-LiveInv, Runs-LiveInv}
use dpdk_high_speed_flow_rou.Live.Leaving.{Goes, Deserted, desert}

module _ {api : TableApi} {q : QsbrApi} (reading : QsbrLaws q) (n : ℕ) (sums : Checksums)
    (laws : TableLaws api) (scratch : Meta) where
  -- A step of the writer, once the workers have left.
  written :
      (s u : Running api q) (v : System q)
      → Deserted reading n sums laws scratch s u
      → (u.rcu.writer ≡ free → ⊥)
      → Publishes q n u.rcu v
      → v.reader ≡ u.rcu.reader
      → Deserted reading n sums laws scratch s (record u { rcu = v })
  written s u v d busy p same =
      let move : Moves api q sums scratch n u (record u { rcu = v }) = go_on v busy p refl in
      record {
        goes = more d.goes move;
        inv = Moves-LiveInv reading n sums laws scratch move d.inv;
        empty = λ i. ap (λ (r : ℕ → Reader). r i) same ∙ d.empty i;
      }

  -- A publication ends, from each place where it may stand.
  abbrev Ends : Running api q → Type 0
  Ends s = (u : Running api q) × Deserted reading n sums laws scratch s u × (u.rcu.writer ≡ free)

  end_reclaiming :
      (s u : Running api q) (old : ℕ)
      → Deserted reading n sums laws scratch s u
      → u.rcu.writer ≡ reclaiming old
      → Ends s
  end_reclaiming s u old d at = (_, written s u _ d (λ e. cc) (Rcu.reclaim old at refl) refl, refl)

  end_waiting :
      (s u : Running api q) (old token : ℕ)
      → Deserted reading n sums laws scratch s u
      → u.rcu.writer ≡ waiting old token
      → Ends s
  end_waiting s u old token d at =
      let passes = reading.check_complete u.rcu.qsbr token (λ i.
        offline reading n u.rcu token i
          (d.inv.rcu.online i ∙ ap (λ r. not (is_off r)) (d.empty i))) in
      end_reclaiming s _ old (written s u _ d (λ e. cc) (Rcu.check old token at passes refl) refl)
        refl

  end_exchanged :
      (s u : Running api q) (old : ℕ)
      → Deserted reading n sums laws scratch s u
      → u.rcu.writer ≡ exchanged old
      → Ends s
  end_exchanged s u old d at =
      end_waiting s _ old _ (written s u _ d (λ e. cc) (Rcu.start old at refl) refl) refl

  end_built :
      (s u : Running api q) (new : ℕ)
      → Deserted reading n sums laws scratch s u
      → u.rcu.writer ≡ built new
      → Ends s
  end_built s u new d at =
      end_exchanged s _ _ (written s u _ d (λ e. cc) (Rcu.exchange new at refl) refl) refl

  end_publication :
      (s u : Running api q) (w : Writer)
      → Deserted reading n sums laws scratch s u
      → u.rcu.writer ≡ w
      → Ends s
  end_publication s u free d at = (u, d, at)
  end_publication s u (built new) d at = end_built s u new d at
  end_publication s u (exchanged old) d at = end_exchanged s u old d at
  end_publication s u (waiting old token) d at = end_waiting s u old token d at
  end_publication s u (reclaiming old) d at = end_reclaiming s u old d at

  noted-NoLeak :
      (s : Running api q) (i : ℕ) (pkts : List Mbuf) (out : Option Polled)
      → NoLeak s.rcu
      → NoLeak (noted api q s i pkts out).rcu
  unfolding noted
  noted-NoLeak s i pkts none kept = kept
  noted-NoLeak s i pkts (some p) kept = kept

  Moves-NoLeak :
      {s u : Running api q} → Moves api q sums scratch n s u → NoLeak s.rcu → NoLeak u.rcu
  unfolding finish_round
  Moves-NoLeak (build_rules g r w t v given at made p e) kept =
      subst (λ (x : Running api q). NoLeak x.rcu) (sym e) (Publishes-NoLeak n p kept)
  Moves-NoLeak (go_on v busy p e) kept =
      subst (λ (x : Running api q). NoLeak x.rcu) (sym e) (Publishes-NoLeak n p kept)
  Moves-NoLeak (register i low fits at e) kept =
      subst (λ (x : Running api q). NoLeak x.rcu) (sym e) kept
  Moves-NoLeak (load i at e) kept = subst (λ (x : Running api q). NoLeak x.rcu) (sym e) kept
  Moves-NoLeak {s} (round i g pkts sent at sound taken e) kept =
      subst (λ (x : Running api q). NoLeak x.rcu) (sym e) (noted-NoLeak s i pkts _ kept)
  Moves-NoLeak (unregister i at e) kept = subst (λ (x : Running api q). NoLeak x.rcu) (sym e) kept

  Runs-NoLeak :
      {s u : Running api q} → Goes reading n sums laws scratch s u → NoLeak s.rcu → NoLeak u.rcu
  Runs-NoLeak still kept = kept
  Runs-NoLeak (more before move) kept = Moves-NoLeak move (Runs-NoLeak before kept)

  -- Let generation 1 be built from arrays of the given lengths, over tables and a QSBR variable that
  -- keep the laws of DPDK. Then the running dataplane can always end: from every state that the
  -- workers and the publications can reach there are steps to a state without a fault where all
  -- workers have left, no publication is under way, and the active snapshot is the only one that is
  -- allocated.
  pub can_end :
      (t : Snapshot api) (r : RuleArrays) {s : Running api q}
      → BuiltFrom api q r 1 t
      → Goes reading n sums laws scratch (started api q n t r) s
      → (u : Running api q) × Goes reading n sums laws scratch s u
        × (u.fault ≡ false)
        × ((i : ℕ) → u.rcu.reader i ≡ off)
        × (u.rcu.writer ≡ free)
        × ((g : ℕ) → (u.rcu.live g ≡ true) ↔ (g ≡ u.rcu.active))
  can_end t r {s} from runs =
      let inv = Runs-LiveInv reading n sums laws scratch t r from runs in
      let kept = Runs-NoLeak runs (initial-NoLeak q n q.init) in
      let (v, d, stands) = desert reading n sums laws scratch s inv in
      let (u, ended, idle_writer) = end_publication s v v.rcu.writer d refl in
      let alone = Runs-NoLeak ended.goes kept in
      (
        u,
        ended.goes,
        ended.inv.sound,
        ended.empty,
        idle_writer,
        λ g. (
          λ l. not_in_hand (kept_at u.rcu free idle_writer alone g l),
          λ e. rw e ended.inv.rcu.alive,
        ),
      )
