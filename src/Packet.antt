-- ===== src/Packet.antt =====
-- dataplane/native/dp_packet.h, and the part of an mbuf that the dataplane reads and writes.
-- A mbuf is known by its address; its first segment is the list of its bytes. A read or a write
-- outside the segment is a fault, `none`. `load16`, `load32`, `store16` and `store32` are accesses
-- to a field in network order, through `rte_be_to_cpu_*` and `rte_cpu_to_be_*`.
pub mod Access
pub mod Writes
use dpdk_high_speed_flow_rou.Prelude.{
  ℕ, ◌+◌, ◌*◌, ◌/◌, ◌%◌, ◌<◌, ◌≡◌, List, Option, none, some, length, get_elem?, set, All, ltb,
  if◌then◌else◌, ◌>>=◌,
}

-- `struct dp_packet_meta`
pub record Meta : Type 0 where
  pub ether_type : ℕ  -- uint16_t
  pub src_ipv4 : ℕ  -- uint32_t
  pub dst_ipv4 : ℕ  -- uint32_t
  pub l4_proto : ℕ  -- uint8_t
  pub src_port : ℕ  -- uint16_t
  pub dst_port : ℕ  -- uint16_t
  pub l2_len : ℕ  -- uint16_t
  pub l3_len : ℕ  -- uint16_t
  pub l4_len : ℕ  -- uint16_t
  pub l4_offset : ℕ  -- uint16_t

-- `enum dp_parse_result`
pub data ParseResult : Type 0 where
  ok unsupported malformed : ParseResult

-- What the dataplane sees of a `struct rte_mbuf`.
pub record Mbuf : Type 0 where
  pub addr : ℕ
  pub nb_segs : ℕ
  pub pkt_len : ℕ  -- uint32_t
  pub data_len : ℕ  -- uint16_t
  pub bytes : List ℕ

-- The segment holds `data_len` bytes.
pub record IsMbuf (m : Mbuf) : Type 0 where
  pub held : m.data_len ≡ length m.bytes
  pub short : m.data_len < 65536
  pub octets : All (λ b. b < 256) m.bytes

unfoldable pub load8 : List ℕ → ℕ → Option ℕ
load8 d i = get_elem? d i

unfoldable pub load16 : List ℕ → ℕ → Option ℕ
unfolding load8
load16 d i = do high ← load8 d i; low ← load8 d (i + 1); some (high * 256 + low)

unfoldable pub load32 : List ℕ → ℕ → Option ℕ
unfolding load16
load32 d i = do high ← load16 d i; low ← load16 d (i + 2); some (high * 65536 + low)

unfoldable pub store8 : List ℕ → ℕ → ℕ → Option (List ℕ)
store8 d i v = if ltb i (length d) then some (set d i v) else none

unfoldable pub store16 : List ℕ → ℕ → ℕ → Option (List ℕ)
unfolding store8
store16 d i v = do d₁ ← store8 d i (v / 256 % 256); store8 d₁ (i + 1) (v % 256)

unfoldable pub store32 : List ℕ → ℕ → ℕ → Option (List ℕ)
unfolding store16
store32 d i v = do d₁ ← store16 d i (v / 65536 % 65536); store16 d₁ (i + 2) (v % 65536)
