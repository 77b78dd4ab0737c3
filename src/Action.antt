-- ===== src/Action.antt =====
-- `dp_apply_action` of dataplane/native/dp_action.c. The checksum helpers of DPDK's rte_ip4.h are a
-- parameter; each gives the value of the checksum field in network order.
pub mod Bounds
pub mod Total
pub mod Effects
pub mod Rewrites
pub mod Protocols
pub mod Kept
pub mod Reparse
use dpdk_high_speed_flow_rou.Prelude.{
  ℕ, ◌+◌, Bool, not, ◌||◌, List, Option, some, ◌>>=◌, ◌==◌, if◌then◌else◌, bit_and, u16, ℤ, pos,
  minus, einval,
}
use dpdk_high_speed_flow_rou.Packet.{Meta, Mbuf, load16, store16, store32}
use dpdk_high_speed_flow_rou.Parser.{ipproto_tcp, ipproto_udp}
use dpdk_high_speed_flow_rou.Rules.{
  Action, action_drop, action_forward, action_rewrite, rewrite_src_ipv4, rewrite_dst_ipv4,
  rewrite_src_port, rewrite_dst_port,
}

-- `rte_ipv4_cksum` of the header at an offset; `rte_ipv4_udptcp_cksum` of the two headers.
pub record Checksums : Type 0 where
  pub ipv4_cksum : List ℕ → ℕ → ℕ
  pub udptcp_cksum : List ℕ → ℕ → ℕ → ℕ

abbrev pub asks : Action → ℕ → Bool
asks a flag = not (bit_and a.rewrite_mask flag == 0)

unfoldable pub store16_if : Bool → List ℕ → ℕ → ℕ → Option (List ℕ)
store16_if b d i v = if b then store16 d i v else some d

unfoldable pub store32_if : Bool → List ℕ → ℕ → ℕ → Option (List ℕ)
store32_if b d i v = if b then store32 d i v else some d

-- Both transport headers start with the two ports.
unfoldable pub rewrite_ports : Action → ℕ → List ℕ → Option (List ℕ)
rewrite_ports a l4 d = do
  d₁ ← store16_if (asks a rewrite_src_port) d l4 a.src_port
  store16_if (asks a rewrite_dst_port) d₁ (l4 + 2) a.dst_port

unfoldable pub rewrite_addresses : Action → ℕ → List ℕ → Option (List ℕ)
rewrite_addresses a l2 d = do
  d₁ ← store32_if (asks a rewrite_src_ipv4) d (l2 + 12) a.src_ipv4
  store32_if (asks a rewrite_dst_ipv4) d₁ (l2 + 16) a.dst_ipv4

module _ (sums : Checksums) where
  -- `ipv4->hdr_checksum`, computed over the header with the field at zero.
  unfoldable pub update_ipv4_cksum : ℕ → List ℕ → Option (List ℕ)
  update_ipv4_cksum l2 d = do
    d₁ ← store16 d (l2 + 10) 0
    store16 d₁ (l2 + 10) (sums.ipv4_cksum d₁ l2)

  unfoldable pub rewrite_tcp : Action → Meta → List ℕ → Option (List ℕ)
  rewrite_tcp a meta d = do
    d₁ ← rewrite_ports a meta.l4_offset d
    d₂ ← store16 d₁ (meta.l4_offset + 16) 0
    d₃ ← update_ipv4_cksum meta.l2_len d₂
    store16 d₃ (meta.l4_offset + 16) (sums.udptcp_cksum d₃ meta.l2_len meta.l4_offset)

  -- The checksum is computed with the total length set to that of the datagram, and the field is
  -- then put back.
  unfoldable pub rewrite_udp : Action → Meta → List ℕ → Option (List ℕ)
  rewrite_udp a meta d = do
    d₁ ← rewrite_ports a meta.l4_offset d
    d₂ ← store16 d₁ (meta.l4_offset + 6) 0
    d₃ ← update_ipv4_cksum meta.l2_len d₂
    ipv4_total_length ← load16 d₃ (meta.l2_len + 2)
    udp_length ← load16 d₃ (meta.l4_offset + 4)
    d₄ ← store16 d₃ (meta.l2_len + 2) (u16 (meta.l3_len + udp_length))
    d₅ ← store16 d₄ (meta.l4_offset + 6) (sums.udptcp_cksum d₄ meta.l2_len meta.l4_offset)
    store16 d₅ (meta.l2_len + 2) ipv4_total_length

  -- The part behind the null checks. Addresses are written before the protocol is looked at.
  unfoldable pub apply_to : Mbuf → Meta → Action → Option (ℤ × Mbuf)
  unfolding rewrite_tcp rewrite_udp
  apply_to m meta a =
      if a.type == action_drop || a.type == action_forward
      then some (pos 0, m)
      else (if not (a.type == action_rewrite) || a.rewrite_mask == 0
          then some (minus einval, m)
          else do
            d ← rewrite_addresses a meta.l2_len m.bytes
            if meta.l4_proto == ipproto_tcp
                then (do d₁ ← rewrite_tcp a meta d; some (pos 0, record m { bytes = d₁ }))
                else (if meta.l4_proto == ipproto_udp
                    then (do d₁ ← rewrite_udp a meta d; some (pos 0, record m { bytes = d₁ }))
                    else some (minus einval, record m { bytes = d })))

  -- A null pointer is `none`.
  unfoldable apply_action : Option Mbuf → Option Meta → Option Action → Option (ℤ × Option Mbuf)
  unfolding apply_to
  apply_action (some m) (some meta) (some a) = do (ret, m₁) ← apply_to m meta a; some (ret, some m₁)
  apply_action m meta a = some (minus einval, m)
