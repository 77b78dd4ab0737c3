-- ===== src/Live/Safety.antt =====
-- The running dataplane as a whole.
use dpdk_high_speed_flow_rou.Prelude.{ℕ, ◌+◌, ◌≡◌, false, some}
use dpdk_high_speed_flow_rou.Packet.{Meta, Mbuf, IsMbuf}
use dpdk_high_speed_flow_rou.Tables.{TableApi, TableLaws}
use dpdk_high_speed_flow_rou.Snapshot.Types.{Snapshot, elements}
use dpdk_high_speed_flow_rou.Action.{Checksums}
use dpdk_high_speed_flow_rou.Stats.{PacketStats}
use dpdk_high_speed_flow_rou.Control.{RuleArrays}
use dpdk_high_speed_flow_rou.Worker.{Processed, process_packet}
use dpdk_high_speed_flow_rou.Worker.Balance.{IsBalanced}
use dpdk_high_speed_flow_rou.Worker.Settled.{occurrences}
use dpdk_high_speed_flow_rou.Worker.Routed.{Routed, process_packet-Routed}
use dpdk_high_speed_flow_rou.Rcu.{holding}
use dpdk_high_speed_flow_rou.Rcu.Qsbr.{QsbrApi, QsbrLaws}
use dpdk_high_speed_flow_rou.Live.{Running, deref, BuiltFrom, Runs, started}
use dpdk_high_speed_flow_rou.Live.Invariant.{held-deref}
use dpdk_high_speed_flow_rou.Live.Rounds.{Runs-LiveInv}

module _ {api : TableApi} {q : QsbrApi} (reading : QsbrLaws q) (n : ℕ) (sums : Checksums)
    (laws : TableLaws api) (scratch : Meta) where
  -- Let generation 1 be built from arrays of the given lengths, and let workers and publications take
  -- their steps in any order, over tables and a QSBR variable that keep the laws of DPDK, with sound
  -- packets and a driver that takes no more than it is given. Then no worker ever meets a fault; each
  -- packet that a worker has received was taken by the driver or freed, once; and the sums over the
  -- counters of each worker hold.
  pub no_fault :
      (t : Snapshot api) (r : RuleArrays) {s : Running api q}
      → BuiltFrom api q r 1 t
      → Runs api q sums scratch n (started api q n t r) s
      → (s.fault ≡ false)
        × ((i : ℕ) → IsBalanced 0 0 (s.stats i))
        × ((i a : ℕ)
            → occurrences a (s.accepted i) + occurrences a (s.freed i)
              ≡ occurrences a (s.received i))
  no_fault t r from runs =
      let inv = Runs-LiveInv reading n sums laws scratch t r from runs in
      (inv.sound, inv.balanced, inv.accounted)

  -- In the same runs, a worker that has loaded generation `g` can read its snapshot until it reports,
  -- whatever is published meanwhile, and processes every packet as the rules of generation `g` say.
  pub held-Routed :
      (t : Snapshot api) (r : RuleArrays) {s : Running api q}
      → BuiltFrom api q r 1 t
      → Runs api q sums scratch n (started api q n t r) s
      → (i g : ℕ) → s.rcu.reader i ≡ holding g
      → (m : Mbuf) (stats : PacketStats) → IsMbuf m
      → (x : Snapshot api) × (p : Processed) × (deref api q s g ≡ some x)
        × (process_packet sums api (some x) scratch m stats ≡ some p)
        × Routed
            (elements (s.rules g).flows (s.rules g).flow_count)
            (elements (s.rules g).routes (s.rules g).route_count)
            m
            p.out
  held-Routed t r {s} from runs i g h m stats v =
      let inv = Runs-LiveInv reading n sums laws scratch t r from runs in
      let (x, is, (grants, w, given, built)) = held-deref reading n s i g inv h in
      let rules = s.rules g in
      let (p, done, routed) =
        process_packet-Routed laws grants rules.flows rules.flow_count rules.routes
          rules.route_count g w x sums scratch m stats given.flows given.routes given.words built
          v in
      (x, p, is, done, routed)
