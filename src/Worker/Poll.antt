-- ===== src/Worker/Poll.antt =====
-- One round of the loop of `dp_worker_run` in dataplane/native/dp_worker.c: a burst is received,
-- processed, and sent.
use dpdk_high_speed_flow_rou.Prelude.{
  ℕ, List, [], ◌++◌, Option, some, length, take, ◌==◌, if◌then◌else◌, ◌>>=◌,
}
use dpdk_high_speed_flow_rou.Packet.{Meta, Mbuf}
use dpdk_high_speed_flow_rou.Tables.{TableApi}
use dpdk_high_speed_flow_rou.Snapshot.Types.{Snapshot}
use dpdk_high_speed_flow_rou.Action.{Checksums}
use dpdk_high_speed_flow_rou.Stats.{PacketStats, add64}
use dpdk_high_speed_flow_rou.Tx.{addrs, complete_tx}
use dpdk_high_speed_flow_rou.Worker.Burst.{Burst, sweep}

-- What a round meets: the packets that `rte_eth_rx_burst` gives, the snapshot that is active then, and
-- how many of `n` packets `rte_eth_tx_burst` takes.
pub record Round (api : TableApi) : Type 0 where
  pub pkts : List Mbuf
  pub snapshot : Option (Snapshot api)
  pub sent : ℕ → ℕ

-- The counters, the packets that the driver took, and the ones that were freed.
pub record Polled : Type 0 where
  pub stats : PacketStats
  pub accepted : List ℕ
  pub freed : List ℕ

-- The part of a round behind the packet loop.
unfoldable pub transmit : (ℕ → ℕ) → Burst → Polled
transmit sent b =
    if b.tx_count == 0
    then record { stats = b.stats; accepted = []; freed = b.freed }
    else let (stats, unsent) =
        complete_tx b.pkts b.tx_count (sent b.tx_count)
          (record b.stats { tx_bursts = add64 b.stats.tx_bursts 1 }) in
      record {
        stats = stats;
        accepted = addrs (take (sent b.tx_count) b.pkts);
        freed = b.freed ++ unsent;
      }

module _ (sums : Checksums) (api : TableApi) (scratch : Meta) where
  unfoldable pub poll : Round api → PacketStats → Option Polled
  unfolding transmit
  poll r stats =
      let n = length r.pkts in
      let stats₁ : PacketStats = record stats { rx_bursts = add64 stats.rx_bursts 1 } in
      if n == 0
      then some (record {
        stats = record stats₁ { rx_empty_polls = add64 stats₁.rx_empty_polls 1 };
        accepted = [];
        freed = [];
      })
      else (do
        b ← sweep sums api r.snapshot scratch n 0 (record {
          pkts = r.pkts;
          tx_count = 0;
          stats = record stats₁ { rx = add64 stats₁.rx n };
          freed = [];
        })
        some (transmit r.sent b))
