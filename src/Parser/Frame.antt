-- ===== src/Parser/Frame.antt =====
-- What an acceptable frame is, said of its bytes and not of the parser: an unfragmented IPv4 packet
-- in an Ethernet frame, with a TCP or UDP header that fits its payload.
use dpdk_high_speed_flow_rou.Prelude.{
  ℕ, ◌+◌, ◌-◌, ◌*◌, ◌/◌, ◌%◌, ◌≤◌, ◌<◌, ◌≡◌, ◌≢◌, ◌⊎◌, List, length, ◌==◌, if◌then◌else◌,
}
use dpdk_high_speed_flow_rou.Packet.{Meta, ParseResult, ok, unsupported, malformed}
use dpdk_high_speed_flow_rou.Packet.Access.{byte, be16, be32}

abbrev pub ip_header_len : List ℕ → ℕ
ip_header_len d = byte d 14 % 16 * 4

abbrev pub l4_at : List ℕ → ℕ
l4_at d = 14 + ip_header_len d

-- The bytes behind the IPv4 header, by the packet's own total length.
abbrev pub payload : List ℕ → ℕ
payload d = be16 d 16 - ip_header_len d

abbrev pub protocol : List ℕ → ℕ
protocol d = byte d 23

abbrev pub tcp_header_len : List ℕ → ℕ → ℕ
tcp_header_len d l4 = byte d (l4 + 12) / 16 * 4

pub record TcpFits (d : List ℕ) (l4 room : ℕ) : Type 0 where
  pub fixed : 20 ≤ room
  pub least : 20 ≤ tcp_header_len d l4
  pub fits : tcp_header_len d l4 ≤ room

pub record UdpFits (d : List ℕ) (l4 room : ℕ) : Type 0 where
  pub fixed : 8 ≤ room
  pub least : 8 ≤ be16 d (l4 + 4)
  pub fits : be16 d (l4 + 4) ≤ room

-- An IPv4 header with a sound length, and a total length within the frame.
pub record IsIpv4Frame (d : List ℕ) : Type 0 where
  pub fixed : 34 ≤ length d
  pub ipv4 : be16 d 12 ≡ 0x0800
  pub version : byte d 14 / 16 ≡ 4
  pub least : 20 ≤ ip_header_len d
  pub header : ip_header_len d ≤ be16 d 16
  pub total : 14 + be16 d 16 ≤ length d

abbrev pub IsFragment : List ℕ → Type 0
IsFragment d = 1 ≤ be16 d 20 % 0x4000

-- A TCP or UDP header in place.
abbrev pub HasPorts : List ℕ → Type 0
HasPorts d =
    ((protocol d ≡ 6) × TcpFits d (l4_at d) (payload d))
    ⊎ ((protocol d ≡ 17) × UdpFits d (l4_at d) (payload d))

pub record IsFlowFrame (d : List ℕ) : Type 0 where
  pub frame : IsIpv4Frame d
  pub whole : be16 d 20 % 0x4000 ≡ 0
  pub ports : HasPorts d

-- What is to be said of a frame in one segment: each result with its reasons.
pub data Verdict (d : List ℕ) : ParseResult → Type 0 where
  flow : IsFlowFrame d → Verdict d ok
  fragment : IsIpv4Frame d → IsFragment d → Verdict d unsupported
  other_protocol :
      IsIpv4Frame d
      → be16 d 20 % 0x4000 ≡ 0
      → protocol d ≢ 6
      → protocol d ≢ 17
      → Verdict d unsupported
  other_type : 14 ≤ length d → be16 d 12 ≢ 0x0800 → Verdict d unsupported
  truncated : length d < 14 → Verdict d malformed
  bad_header : 14 ≤ length d → be16 d 12 ≡ 0x0800 → ¬ IsIpv4Frame d → Verdict d malformed
  bad_ports :
      IsIpv4Frame d
      → be16 d 20 % 0x4000 ≡ 0
      → (protocol d ≡ 6) ⊎ (protocol d ≡ 17)
      → ¬ HasPorts d
      → Verdict d malformed

-- The fields of an acceptable frame.
abbrev pub meta_of : List ℕ → Meta
meta_of d = record {
  ether_type = 0x0800;
  src_ipv4 = be32 d 26;
  dst_ipv4 = be32 d 30;
  l4_proto = protocol d;
  src_port = be16 d (l4_at d);
  dst_port = be16 d (l4_at d + 2);
  l2_len = 14;
  l3_len = ip_header_len d;
  l4_len = if protocol d == 6 then tcp_header_len d (l4_at d) else 8;
  l4_offset = l4_at d;
}
