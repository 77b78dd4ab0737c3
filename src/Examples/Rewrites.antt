-- ===== src/Examples/Rewrites.antt =====
-- A rewrite of the frame's addresses and ports, and the frame parsed again.
use dpdk_high_speed_flow_rou.Prelude.{ℕ, ◌≡◌, refl, [], ◌∷◌, some, arith, length, pos}
use dpdk_high_speed_flow_rou.Packet.{Mbuf, ok}
use dpdk_high_speed_flow_rou.Packet
use dpdk_high_speed_flow_rou.Packet.Access.{byte}
use dpdk_high_speed_flow_rou.Parser.{zero_meta, parse_frame}
use dpdk_high_speed_flow_rou.Parser
use dpdk_high_speed_flow_rou.Parser.Frame.{meta_of}
use dpdk_high_speed_flow_rou.Action.{apply_to}
use dpdk_high_speed_flow_rou.Action.Kept.{rewritten, IsOther}
use dpdk_high_speed_flow_rou.Action.Reparse.{parse_frame-apply_to}
use dpdk_high_speed_flow_rou.Tables.Assoc.{assoc_api, assoc-TableLaws}
use dpdk_high_speed_flow_rou.Worker.{Processed, process_packet}
use dpdk_high_speed_flow_rou.Worker.Routed.{Routed, process_packet-Routed}
use dpdk_high_speed_flow_rou.Examples.Data.{
  frame, packet, packet-IsMbuf, zero_sums, rewriting, flow, route, world, all_granted, built,
  snapshot_build-built, one_waiting,
}

parse_frame-packet : parse_frame packet zero_meta ≡ some (ok, meta_of frame)
unfolding parse_frame Parser.parse_ipv4 Parser.parse_l4 Parser.parse_tcp Packet.load16 Packet.load32
parse_frame-packet = refl

parse_frame-apply_to_example :
    (m₁ : Mbuf) × (apply_to zero_sums packet (meta_of frame) rewriting ≡ some (pos 0, m₁))
    × (parse_frame m₁ zero_meta ≡ some (ok, rewritten rewriting (meta_of frame)))
    × (length m₁.bytes ≡ length frame)
    × ((j : ℕ) → IsOther (meta_of frame) j → byte m₁.bytes j ≡ byte frame j)
parse_frame-apply_to_example =
    parse_frame-apply_to zero_sums packet (meta_of frame) zero_meta zero_meta rewriting
      packet-IsMbuf refl refl parse_frame-packet refl (omega arith)

process_packet-Routed_example :
    (p : Processed) × (process_packet zero_sums assoc_api (some built) zero_meta packet one_waiting
      ≡ some p)
    × Routed (flow ∷ []) (route ∷ []) packet p.out
process_packet-Routed_example =
    process_packet-Routed assoc-TableLaws all_granted (some (flow ∷ [])) 1 (some (route ∷ [])) 1 1
      world built zero_sums zero_meta packet one_waiting (omega arith) (omega arith)
      (omega arith, tt) snapshot_build-built packet-IsMbuf
