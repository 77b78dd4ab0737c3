-- ===== src/Runtime/Totals.antt =====
-- `dp_dataplane_get_stats` of dataplane/native/dp_runtime.c against sums that do not wrap on the way.
use mathlib.Core.Option
use dpdk_high_speed_flow_rou.Prelude.{
  ℕ, suc, zero, ◌+◌, ◌<◌, ◌^◌, ◌≡◌, refl, false, true, List, [], ◌∷◌, some, arith, pos, length,
  get_elem?, u64,
}
use dpdk_high_speed_flow_rou.Tables.{TableApi}
use dpdk_high_speed_flow_rou.Stats.{PacketStats, zero_stats, packet_stats_add}
use dpdk_high_speed_flow_rou.State.{Dp, WorkerCtx, WorkerInfo}
use dpdk_high_speed_flow_rou.Runtime.{DpStats, copies, sum_workers, get_stats}

-- The counters of a worker.
pub data Counter : Type 0 where
  rx_packets : Counter
  parsed : Counter
  unsupported : Counter
  malformed : Counter
  flow_hits : Counter
  route_hits : Counter
  misses : Counter
  action_drops : Counter
  forwards : Counter
  rewrites : Counter
  accepted_packets : Counter
  unsent_packets : Counter
  drops : Counter
  bursts_in : Counter
  empty_polls : Counter
  bursts_out : Counter

pub read : Counter → PacketStats → ℕ
read rx_packets s = s.rx
read parsed s = s.parse_ok
read unsupported s = s.parse_unsupported
read malformed s = s.parse_malformed
read flow_hits s = s.flow_hit
read route_hits s = s.route_hit
read misses s = s.lookup_miss
read action_drops s = s.action_drop
read forwards s = s.action_forward
read rewrites s = s.action_rewrite
read accepted_packets s = s.tx_accepted
read unsent_packets s = s.tx_unsent
read drops s = s.drop
read bursts_in s = s.rx_bursts
read empty_polls s = s.rx_empty_polls
read bursts_out s = s.tx_bursts

-- The sum of a counter over the workers, which does not wrap.
pub sum_of : Counter → List WorkerCtx → ℕ
sum_of c [] = 0
sum_of c (w ∷ ws) = read c w.stats + sum_of c ws

read-packet_stats_add :
    (c : Counter) (total local : PacketStats)
    → read c (packet_stats_add total local) ≡ u64 (read c total + read c local)
unfolding packet_stats_add read
read-packet_stats_add rx_packets t l = refl
read-packet_stats_add parsed t l = refl
read-packet_stats_add unsupported t l = refl
read-packet_stats_add malformed t l = refl
read-packet_stats_add flow_hits t l = refl
read-packet_stats_add route_hits t l = refl
read-packet_stats_add misses t l = refl
read-packet_stats_add action_drops t l = refl
read-packet_stats_add forwards t l = refl
read-packet_stats_add rewrites t l = refl
read-packet_stats_add accepted_packets t l = refl
read-packet_stats_add unsent_packets t l = refl
read-packet_stats_add drops t l = refl
read-packet_stats_add bursts_in t l = refl
read-packet_stats_add empty_polls t l = refl
read-packet_stats_add bursts_out t l = refl

read-zero_stats : (c : Counter) → read c zero_stats ≡ 0
unfolding read
read-zero_stats rx_packets = refl
read-zero_stats parsed = refl
read-zero_stats unsupported = refl
read-zero_stats malformed = refl
read-zero_stats flow_hits = refl
read-zero_stats route_hits = refl
read-zero_stats misses = refl
read-zero_stats action_drops = refl
read-zero_stats forwards = refl
read-zero_stats rewrites = refl
read-zero_stats accepted_packets = refl
read-zero_stats unsent_packets = refl
read-zero_stats drops = refl
read-zero_stats bursts_in = refl
read-zero_stats empty_polls = refl
read-zero_stats bursts_out = refl

read-sum_workers :
    (c : Counter) (total : PacketStats) (ws : List WorkerCtx)
    → read c total < 2 ^ 64
    → read c (sum_workers total ws) ≡ u64 (read c total + sum_of c ws)
unfolding sum_workers sum_of
read-sum_workers c total [] small = omega arith
read-sum_workers c total (w ∷ ws) small =
    let here = read-packet_stats_add c total w.stats in
    let rest = read-sum_workers c (packet_stats_add total w.stats) ws (omega (arith, here)) in
    omega (arith, here, rest)

abbrev copy : WorkerCtx → WorkerInfo × PacketStats
copy w = (w.info, w.stats)

get_elem?-copies :
    (ws : List WorkerCtx) (i : ℕ) → get_elem? (copies ws) i ≡ Option.map copy (get_elem? ws i)
get_elem?-copies [] i = refl
get_elem?-copies (w ∷ ws) zero = refl
get_elem?-copies (w ∷ ws) (suc i) = get_elem?-copies ws i

-- What the statistics say of the state: each of the counters is summed over all workers, worker `i`
-- is reported with its own information and counters, and the rules and ports with theirs.
pub record IsTotal {api : TableApi} (dp : Dp api) (out : DpStats) : Type 0 where
  pub totals : (c : Counter) → read c out.totals ≡ u64 (sum_of c dp.workers)
  pub count : out.worker_count ≡ length dp.workers
  pub workers : (i : ℕ) → get_elem? out.workers i ≡ Option.map copy (get_elem? dp.workers i)
  pub rules : out.rules ≡ dp.world.stats
  pub ports : out.ports ≡ dp.port_stats

-- Unless the workers run, the statistics are given with code 0: each of the 16 totals is the sum of
-- that counter over all workers modulo 2^64, and the copy of each worker, of the rules and of the
-- ports is its own.
pub get_stats-IsTotal :
    (api : TableApi) (dp : Dp api)
    → dp.running ≡ false
    → (out : DpStats) × (get_stats api true dp ≡ (pos 0, some out)) × IsTotal dp out
unfolding get_stats
get_stats-IsTotal api dp still = rw still (
  _,
  refl,
  record {
    totals = λ c.
        let summed = read-sum_workers c zero_stats dp.workers (omega (arith, read-zero_stats c)) in
        omega (arith, summed, read-zero_stats c);
    count = refl;
    workers = get_elem?-copies dp.workers;
    rules = refl;
    ports = refl;
  },
)
