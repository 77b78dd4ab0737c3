-- ===== src/Parser/Layers.antt =====
-- The functions of dp_parser.c one by one, against the conditions of `Parser.Frame`.
use dpdk_high_speed_flow_rou.Prelude.{ℕ, ◌+◌, ◌%◌, ◌≤◌, ◌<◌, ◌≡◌, List, some, arith, length, All}
use dpdk_high_speed_flow_rou.Prelude.Bits.{bit_and-ones}
use dpdk_high_speed_flow_rou.Packet.{Meta, ok, unsupported, malformed}
use dpdk_high_speed_flow_rou.Packet.Access.{
  byte, be16, be32, byte-lt, load8-byte, load16-be16, load32-be32,
}
use dpdk_high_speed_flow_rou.Parser.{zero_meta, parse_tcp, parse_udp, parse_l4, parse_ipv4}
use dpdk_high_speed_flow_rou.Parser.Frame.{
  TcpFits, UdpFits, IsIpv4Frame, IsFragment, tcp_header_len, ip_header_len, l4_at, payload,
  protocol,
}

-- `data` is at `l4`, with `room` bytes of payload behind it.
module _ (d : List ℕ) (octets : All (λ b. b < 256) d) (l4 room : ℕ) (meta : Meta)
    (inside : l4 + room ≤ length d) where
  abbrev pub tcp_meta : Meta
  tcp_meta = record meta {
    src_port = be16 d l4;
    dst_port = be16 d (l4 + 2);
    l4_len = tcp_header_len d l4;
  }

  pub parse_tcp-fits : TcpFits d l4 room → parse_tcp d l4 room meta ≡ some (ok, tcp_meta)
  unfolding parse_tcp
  parse_tcp-fits f = ground (
    arith,
    byte-lt d (l4 + 12) octets,
    load8-byte d (l4 + 12),
    load16-be16 d l4,
    load16-be16 d (l4 + 2),
  )

  pub parse_tcp-misfit : ¬ TcpFits d l4 room → parse_tcp d l4 room meta ≡ some (malformed, meta)
  unfolding parse_tcp
  parse_tcp-misfit f = ground (
    arith,
    byte-lt d (l4 + 12) octets,
    load8-byte d (l4 + 12),
    load16-be16 d l4,
    load16-be16 d (l4 + 2),
  )

  abbrev pub udp_meta : Meta
  udp_meta = record meta { src_port = be16 d l4; dst_port = be16 d (l4 + 2); l4_len = 8 }

  pub parse_udp-fits : UdpFits d l4 room → parse_udp d l4 room meta ≡ some (ok, udp_meta)
  unfolding parse_udp
  parse_udp-fits f =
      ground (arith, load16-be16 d (l4 + 4), load16-be16 d l4, load16-be16 d (l4 + 2))

  pub parse_udp-misfit : ¬ UdpFits d l4 room → parse_udp d l4 room meta ≡ some (malformed, meta)
  unfolding parse_udp
  parse_udp-misfit f =
      ground (arith, load16-be16 d (l4 + 4), load16-be16 d l4, load16-be16 d (l4 + 2))

abbrev pub eth_meta : ℕ → Meta
eth_meta t = record zero_meta { ether_type = t; l2_len = 14 }

abbrev pub ip_meta : List ℕ → Meta
ip_meta d = record (eth_meta 0x0800) {
  src_ipv4 = be32 d 26;
  dst_ipv4 = be32 d 30;
  l4_proto = protocol d;
  l3_len = ip_header_len d;
  l4_offset = l4_at d;
}

module _ (d : List ℕ) (octets : All (λ b. b < 256) d) where
  -- The fixed part of the header is all that the tests read.
  pub parse_ipv4-bad :
      be16 d 12 ≡ 0x0800
      → ¬ IsIpv4Frame d
      → parse_ipv4 d (length d) (eth_meta 0x0800) ≡ some (malformed, eth_meta 0x0800)
  unfolding parse_ipv4
  parse_ipv4-bad e bad =
      ground
        (arith, byte-lt d 14 octets, bit_and-ones 4 (byte d 14), load8-byte d 14, load16-be16 d 16)

  pub parse_ipv4-fragment :
      IsIpv4Frame d
      → IsFragment d
      → parse_ipv4 d (length d) (eth_meta 0x0800) ≡ some (unsupported, eth_meta 0x0800)
  unfolding parse_ipv4
  parse_ipv4-fragment f frag = ground (
    arith,
    byte-lt d 14 octets,
    bit_and-ones 4 (byte d 14),
    bit_and-ones 14 (be16 d 20),
    load8-byte d 14,
    load16-be16 d 16,
    load16-be16 d 20,
  )

  pub parse_ipv4-whole :
      IsIpv4Frame d
      → be16 d 20 % 0x4000 ≡ 0
      → parse_ipv4 d (length d) (eth_meta 0x0800) ≡ parse_l4 d (payload d) (ip_meta d)
  unfolding parse_ipv4
  parse_ipv4-whole f whole = ground (
    arith,
    byte-lt d 14 octets,
    byte-lt d 16 octets,
    byte-lt d 17 octets,
    bit_and-ones 4 (byte d 14),
    bit_and-ones 14 (be16 d 20),
    load8-byte d 14,
    load16-be16 d 16,
    load16-be16 d 20,
    load32-be32 d 26,
    load32-be32 d 30,
    load8-byte d 23,
  )
