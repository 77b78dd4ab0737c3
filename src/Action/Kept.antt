-- ===== src/Action/Kept.antt =====
-- What stays of an acceptable frame when only addresses, ports and checksums are written.
use dpdk_high_speed_flow_rou.Prelude.{
  ℕ, ◌+◌, ◌<◌, ◌≡◌, inl, inr, refl, ◌∙◌, List, arith, u16, u32, ◌==◌, if◌then◌else◌,
}
use dpdk_high_speed_flow_rou.Packet.{Meta}
use dpdk_high_speed_flow_rou.Packet.Access.{byte, be16}
use dpdk_high_speed_flow_rou.Parser.Frame.{
  IsIpv4Frame, IsFlowFrame, meta_of, l4_at, payload, protocol, ip_header_len, tcp_header_len,
}
use dpdk_high_speed_flow_rou.Rules.{
  Action, rewrite_src_ipv4, rewrite_dst_ipv4, rewrite_src_port, rewrite_dst_port,
}
use dpdk_high_speed_flow_rou.Action.{asks}
use dpdk_high_speed_flow_rou.Action.Effects.{Keeps, Outside, asked}
use dpdk_high_speed_flow_rou.Action.Rewrites.{Addressed, Ported}

-- What the metadata are after a rewrite: the fields that the mask names are those of the action.
abbrev pub rewritten : Action → Meta → Meta
rewritten a meta = record meta {
  src_ipv4 = asked (asks a rewrite_src_ipv4) (u32 a.src_ipv4) meta.src_ipv4;
  dst_ipv4 = asked (asks a rewrite_dst_ipv4) (u32 a.dst_ipv4) meta.dst_ipv4;
  src_port = asked (asks a rewrite_src_port) (u16 a.src_port) meta.src_port;
  dst_port = asked (asks a rewrite_dst_port) (u16 a.dst_port) meta.dst_port;
}

-- The bytes that are no address, no port and no checksum.
abbrev pub IsOther : Meta → ℕ → Type 0
IsOther meta j =
    Outside (meta.l2_len + 10) 10 j
    × Outside meta.l4_offset 4 j
    × Outside (meta.l4_offset + (if meta.l4_proto == 6 then 16 else 6)) 2 j

-- A frame whose headers are kept, but for addresses, ports and checksums, stays acceptable.
module _ (d e : List ℕ) (f : IsFlowFrame d) (k : Keeps (IsOther (meta_of d)) d e) where
  low : (j : ℕ) → j < 24 → byte e j ≡ byte d j
  low j b = let least = f.frame.least in k.same j (inl b, inl (omega arith), inl (ground arith))

  low16 : (j : ℕ) → j < 23 → be16 e j ≡ be16 d j
  low16 j b = omega (arith, low j (omega arith), low (j + 1) (omega arith))

  frame_kept : IsIpv4Frame e
  frame_kept = record {
    fixed = omega (arith, k.size, f.frame.fixed);
    ipv4 = low16 12 (omega arith) ∙ f.frame.ipv4;
    version = omega (arith, low 14 (omega arith), f.frame.version);
    least = omega (arith, low 14 (omega arith), f.frame.least);
    header = omega (arith, low 14 (omega arith), low16 16 (omega arith), f.frame.header);
    total = omega (arith, k.size, low16 16 (omega arith), f.frame.total);
  }

  ihl_kept : ip_header_len e ≡ ip_header_len d
  ihl_kept = omega (arith, low 14 (omega arith))

  tcp_kept : protocol d ≡ 6 → tcp_header_len e (l4_at e) ≡ tcp_header_len d (l4_at d)
  tcp_kept tcp =
      let least = f.frame.least in
      rw ihl_kept (
        omega
          (arith, k.same (l4_at d + 12) (inr (omega arith), inr (omega arith), inl (ground arith))))

  udp_kept : protocol d ≡ 17 → be16 e (l4_at e + 4) ≡ be16 d (l4_at d + 4)
  udp_kept udp =
      let least = f.frame.least in
      rw ihl_kept (
        omega (
          arith,
          k.same (l4_at d + 4) (inr (omega arith), inr (omega arith), inl (ground arith)),
          k.same (l4_at d + 4 + 1) (inr (omega arith), inr (omega arith), inl (ground arith)),
        ))

  pub flow_kept : IsFlowFrame e
  flow_kept =
      let room : payload e ≡ payload d = omega (arith, ihl_kept, low16 16 (omega arith)) in
      let least = f.frame.least in
      record {
        frame = frame_kept;
        whole = omega (arith, low16 20 (omega arith), f.whole);
        ports = elim f.ports [
          | inl (tcp, t) ↦ inl (
            low 23 (omega arith) ∙ tcp,
            record {
              fixed = omega (arith, room, t.fixed);
              least = omega (arith, tcp_kept tcp, t.least);
              fits = omega (arith, room, tcp_kept tcp, t.fits);
            },
          )
          | inr (udp, t) ↦ inr (
            low 23 (omega arith) ∙ udp,
            record {
              fixed = omega (arith, room, t.fixed);
              least = omega (arith, udp_kept udp, t.least);
              fits = omega (arith, room, udp_kept udp, t.fits);
            },
          )
        ];
      }

  l4_len_kept : (meta_of e).l4_len ≡ (meta_of d).l4_len
  l4_len_kept =
      let same = low 23 (omega arith) in
      elim f.ports [
        | inl (tcp, t) ↦ ground (arith, same, tcp, tcp_kept tcp)
        | inr (udp, t) ↦ ground (arith, same, udp)
      ]

  pub meta_kept :
      (a : Action)
      → Addressed a 14 d e
      → Ported a (l4_at d) d e
      → meta_of e ≡ rewritten a (meta_of d)
  meta_kept a addressed ported =
      let same = low 23 (omega arith) in
      rw (l4_len_kept, same, ihl_kept, addressed.0, addressed.1, ported.0, ported.1) refl
