-- ===== src/Tx/Complete.antt =====
-- The packets and the counters after dp_complete_tx.
use dpdk_high_speed_flow_rou.Prelude.{
  ℕ, zero, suc, ◌+◌, ◌≤◌, ◌≡◌, refl, ap, List, [], ◌∷◌, ◌++◌, arith, take, drop,
}
use dpdk_high_speed_flow_rou.Packet.{Mbuf}
use dpdk_high_speed_flow_rou.Stats.{PacketStats}
use dpdk_high_speed_flow_rou.Tx.{addrs, complete_tx}
use dpdk_high_speed_flow_rou.Worker.Balance.{IsBalanced}

addrs-take-drop :
    (sent n : ℕ) (pkts : List Mbuf)
    → sent ≤ n
    → addrs (take sent pkts) ++ addrs (drop sent (take n pkts)) ≡ addrs (take n pkts)
addrs-take-drop zero n pkts h = refl
addrs-take-drop (suc sent) zero pkts h = absurd (omega arith)
addrs-take-drop (suc sent) (suc n) [] h = refl
addrs-take-drop (suc sent) (suc n) (m ∷ pkts) h =
    ap (λ (l : List ℕ). m.addr ∷ l) (addrs-take-drop sent n pkts (omega arith))

-- Let the driver take `sent` of `n` packets. What it took and what is freed are the `n` packets, each
-- once and in order; and where the sums over the counters held with these packets pending, they hold
-- with none of them pending.
pub complete_tx-IsBalanced :
    (pkts : List Mbuf) (n sent waiting pending : ℕ) (s : PacketStats)
    → sent ≤ n
    → IsBalanced waiting (pending + n) s
    → IsBalanced waiting pending (complete_tx pkts n sent s).0
      × (addrs (take sent pkts) ++ (complete_tx pkts n sent s).1 ≡ addrs (take n pkts))
unfolding complete_tx
complete_tx-IsBalanced pkts n sent waiting pending s h b =
    (omega arith, addrs-take-drop sent n pkts h)
