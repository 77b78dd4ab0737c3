-- ===== src/Tx.antt =====
-- `dp_complete_tx` of dataplane/native/dp_tx.c: the sent head of the array belongs to the driver, the
-- tail is freed. What is freed is the list of the addresses.
pub mod Complete
pub mod Partial
pub mod Tested
pub mod Listed
use dpdk_high_speed_flow_rou.Prelude.{ℕ, ◌+◌, ◌-◌, ◌^◌, List, map, drop, take}
use dpdk_high_speed_flow_rou.Packet.{Mbuf}
use dpdk_high_speed_flow_rou.Stats.{PacketStats, add64}

abbrev pub addrs : List Mbuf → List ℕ
addrs = map (λ m. m.addr)

-- `n - sent` is an `int`, widened to 64 bits: it wraps where `sent` exceeds `n`.
unfoldable pub complete_tx : List Mbuf → ℕ → ℕ → PacketStats → PacketStats × List ℕ
complete_tx pkts n sent stats =
    let unsent = n + 2 ^ 64 - sent in
    (
      record stats {
        tx_accepted = add64 stats.tx_accepted sent;
        tx_unsent = add64 stats.tx_unsent unsent;
        drop = add64 stats.drop unsent;
      },
      addrs (drop sent (take n pkts)),
    )
