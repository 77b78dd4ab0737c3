-- ===== src/Parser.antt =====
-- dataplane/native/dp_parser.c. The out-parameter `meta` is passed along and returned as it is left,
-- on failures too. Offsets and lengths are those of rte_ether_hdr (14 bytes), rte_ipv4_hdr (20),
-- rte_tcp_hdr (20) and rte_udp_hdr (8).
pub mod Frame
pub mod Layers
pub mod Accept
use dpdk_high_speed_flow_rou.Prelude.{
  ℕ, ◌+◌, ◌-◌, ◌*◌, ◌/◌, ◌^◌, not, ◌||◌, List, Option, none, some, bit_and, u16, ltb, ◌==◌,
  if◌then◌else◌, ◌>>=◌,
}
use dpdk_high_speed_flow_rou.Packet.{
  Meta, ParseResult, ok, unsupported, malformed, Mbuf, load8, load16, load32,
}

abbrev pub ipproto_tcp : ℕ
ipproto_tcp = 6

abbrev pub ipproto_udp : ℕ
ipproto_udp = 17

-- `data` points at offset `l4` of the frame `d`.
unfoldable pub parse_tcp : List ℕ → ℕ → ℕ → Meta → Option (ParseResult × Meta)
parse_tcp d l4 payload_len meta = if ltb payload_len 20 then some (malformed, meta) else do
  data_off ← load8 d (l4 + 12)
  let data_offset_words = data_off / 2 ^ 4
  let header_len = u16 (data_offset_words * 4)
  if ltb data_offset_words 5 || ltb payload_len header_len then some (malformed, meta) else do
    src_port ← load16 d l4
    dst_port ← load16 d (l4 + 2)
    some (ok, record meta { src_port = src_port; dst_port = dst_port; l4_len = header_len })

unfoldable pub parse_udp : List ℕ → ℕ → ℕ → Meta → Option (ParseResult × Meta)
parse_udp d l4 payload_len meta = if ltb payload_len 8 then some (malformed, meta) else do
  datagram_len ← load16 d (l4 + 4)
  if ltb datagram_len 8 || ltb payload_len datagram_len then some (malformed, meta) else do
    src_port ← load16 d l4
    dst_port ← load16 d (l4 + 2)
    some (ok, record meta { src_port = src_port; dst_port = dst_port; l4_len = 8 })

-- The tail of `dp_parse_ipv4`, once `meta` holds the IPv4 fields.
unfoldable pub parse_l4 : List ℕ → ℕ → Meta → Option (ParseResult × Meta)
parse_l4 d payload_len meta =
    if meta.l4_proto == ipproto_tcp
    then parse_tcp d meta.l4_offset payload_len meta
    else (if meta.l4_proto == ipproto_udp
        then parse_udp d meta.l4_offset payload_len meta
        else some (unsupported, meta))

-- RTE_IPV4_HDR_MF_FLAG | RTE_IPV4_HDR_OFFSET_MASK
abbrev pub fragment_mask : ℕ
fragment_mask = 0x3fff

unfoldable pub parse_ipv4 : List ℕ → ℕ → Meta → Option (ParseResult × Meta)
parse_ipv4 d frame_len meta =
    if ltb frame_len (meta.l2_len + 20) then some (malformed, meta) else do
      version_ihl ← load8 d meta.l2_len
      let version = version_ihl / 2 ^ 4
      let ihl_words = bit_and version_ihl 0x0f
      let ihl_bytes = u16 (ihl_words * 4)
      if not (version == 4) || ltb ihl_words 5
          then some (malformed, meta)
          else (if ltb (frame_len - meta.l2_len) ihl_bytes then some (malformed, meta) else do
            total_len ← load16 d (meta.l2_len + 2)
            if ltb total_len ihl_bytes || ltb (frame_len - meta.l2_len) total_len
                then some (malformed, meta)
                else do
                  fragment ← load16 d (meta.l2_len + 6)
                  if not (bit_and fragment fragment_mask == 0) then some (unsupported, meta) else do
                    src_ipv4 ← load32 d (meta.l2_len + 12)
                    dst_ipv4 ← load32 d (meta.l2_len + 16)
                    l4_proto ← load8 d (meta.l2_len + 9)
                    parse_l4 d (u16 (total_len - ihl_bytes)) (record meta {
                      src_ipv4 = src_ipv4;
                      dst_ipv4 = dst_ipv4;
                      l4_proto = l4_proto;
                      l3_len = ihl_bytes;
                      l4_offset = u16 (meta.l2_len + ihl_bytes);
                    }))

-- `memset(meta, 0, sizeof(*meta))`
abbrev pub zero_meta : Meta
zero_meta = record {
  ether_type = 0;
  src_ipv4 = 0;
  dst_ipv4 = 0;
  l4_proto = 0;
  src_port = 0;
  dst_port = 0;
  l2_len = 0;
  l3_len = 0;
  l4_len = 0;
  l4_offset = 0;
}

abbrev pub ether_type_ipv4 : ℕ
ether_type_ipv4 = 0x0800

unfoldable pub parse_frame : Mbuf → Meta → Option (ParseResult × Meta)
parse_frame m meta =
    if not (m.nb_segs == 1)
    then some (unsupported, meta)
    else (if not (m.pkt_len == m.data_len) || ltb 65535 m.pkt_len
        then some (malformed, meta)
        else (if ltb m.data_len 14 then some (malformed, zero_meta) else do
          ether_type ← load16 m.bytes 12
          let meta₁ : Meta = record zero_meta { ether_type = ether_type; l2_len = 14 }
          if not (ether_type == ether_type_ipv4)
              then some (unsupported, meta₁)
              else parse_ipv4 m.bytes m.data_len meta₁))

-- A null pointer is `none`.
unfoldable parse_packet : Option Mbuf → Option Meta → Option (ParseResult × Option Meta)
unfolding parse_frame
parse_packet none meta = some (malformed, meta)
parse_packet (some m) none = some (malformed, none)
parse_packet (some m) (some meta) = do (r, meta₁) ← parse_frame m meta; some (r, some meta₁)
