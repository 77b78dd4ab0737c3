-- ===== src/Parser/Accept.antt =====
-- dp_parse_packet against `Parser.Frame`: the result that it gives, with its reason, what it reports
-- of the frame, and that it never reads outside of the segment.
use dpdk_high_speed_flow_rou.Prelude.{
  ℕ, ◌+◌, ◌/◌, ◌%◌, ◌≤◌, ◌<◌, ◌≡◌, refl, inl, inr, List, some, arith, length, All, Option, dec_le,
  dec_lt, ℕ_discrete,
}
use dpdk_high_speed_flow_rou.Packet.{Meta, Mbuf, IsMbuf, ParseResult, ok, unsupported, malformed}
use dpdk_high_speed_flow_rou.Packet.Access.{byte, be16, load16-be16}
use dpdk_high_speed_flow_rou.Parser.{zero_meta, parse_l4, parse_ipv4, parse_frame}
use dpdk_high_speed_flow_rou.Parser.Frame.{
  TcpFits, UdpFits, IsIpv4Frame, Verdict, meta_of, l4_at, payload, protocol, ip_header_len,
  tcp_header_len,
}
use dpdk_high_speed_flow_rou.Parser.Layers.{
  eth_meta, ip_meta, parse_tcp-fits, parse_tcp-misfit, parse_udp-fits, parse_udp-misfit,
  parse_ipv4-bad, parse_ipv4-fragment, parse_ipv4-whole,
}

-- A result with its reason; of an acceptable frame, also its fields.
abbrev pub Judged : List ℕ → Option (ParseResult × Meta) → Type 0
Judged d out =
    (r : ParseResult) × (meta : Meta) × (out ≡ some (r, meta))
    × Verdict d r
    × (r ≡ ok → meta ≡ meta_of d)

-- Three conditions decided one after the other.
dec_all : {A B C : Type 0} → Dec A → Dec B → Dec C → Dec (A × B × C)
dec_all (no a) q r = no (λ t. a t.0)
dec_all (yes a) (no b) r = no (λ t. b t.1)
dec_all (yes a) (yes b) (no c) = no (λ t. c t.2)
dec_all (yes a) (yes b) (yes c) = yes (a, b, c)

dec_TcpFits : (d : List ℕ) (l4 room : ℕ) → Dec (TcpFits d l4 room)
dec_TcpFits d l4 room =
    elim (dec_all (dec_le 20 room) (dec_le 20 (tcp_header_len d l4))
      (dec_le (tcp_header_len d l4) room)) [
        | yes t ↦ yes (record { fixed = t.0; least = t.1; fits = t.2 })
        | no n ↦ no (λ f. n (f.fixed, f.least, f.fits))
      ]

dec_UdpFits : (d : List ℕ) (l4 room : ℕ) → Dec (UdpFits d l4 room)
dec_UdpFits d l4 room =
    elim (dec_all (dec_le 8 room) (dec_le 8 (be16 d (l4 + 4))) (dec_le (be16 d (l4 + 4)) room)) [
      | yes t ↦ yes (record { fixed = t.0; least = t.1; fits = t.2 })
      | no n ↦ no (λ f. n (f.fixed, f.least, f.fits))
    ]

dec_IsIpv4Frame : (d : List ℕ) → Dec (IsIpv4Frame d)
dec_IsIpv4Frame d =
    elim (dec_all (dec_le 34 (length d)) (ℕ_discrete (be16 d 12) 0x0800)
      (ℕ_discrete (byte d 14 / 16) 4)) [
        | no n ↦ no (λ f. n (f.fixed, f.ipv4, f.version))
        | yes s ↦
            elim (dec_all (dec_le 20 (ip_header_len d)) (dec_le (ip_header_len d) (be16 d 16))
              (dec_le (14 + be16 d 16) (length d))) [
                | no n ↦ no (λ f. n (f.least, f.header, f.total))
                | yes t ↦ yes (record {
                  fixed = s.0;
                  ipv4 = s.1;
                  version = s.2;
                  least = t.0;
                  header = t.1;
                  total = t.2;
                })
              ]
      ]

-- The result of the transport header, given what fits.
module _ (d : List ℕ) (octets : All (λ b. b < 256) d) (f : IsIpv4Frame d)
    (whole : be16 d 20 % 0x4000 ≡ 0) where
  inside : l4_at d + payload d ≤ length d
  inside = omega (arith, f.total, f.header)

  tcp-Judged : protocol d ≡ 6 → Judged d (parse_l4 d (payload d) (ip_meta d))
  unfolding parse_l4
  tcp-Judged tcp = elim (dec_TcpFits d (l4_at d) (payload d)) [
    | yes fits ↦ (
      ok,
      meta_of d,
      ground (arith, parse_tcp-fits d octets (l4_at d) (payload d) (ip_meta d) inside fits),
      Verdict.flow (record { frame = f; whole = whole; ports = inl (tcp, fits) }),
      λ _. refl,
    )
    | no misfit ↦ (
      malformed,
      ip_meta d,
      ground (arith, parse_tcp-misfit d octets (l4_at d) (payload d) (ip_meta d) inside misfit),
      Verdict.bad_ports f whole (inl tcp) (λ p. ground (arith, misfit)),
      λ e. cc,
    )
  ]

  udp-Judged : protocol d ≡ 17 → Judged d (parse_l4 d (payload d) (ip_meta d))
  unfolding parse_l4
  udp-Judged udp = elim (dec_UdpFits d (l4_at d) (payload d)) [
    | yes fits ↦ (
      ok,
      meta_of d,
      ground (arith, parse_udp-fits d octets (l4_at d) (payload d) (ip_meta d) inside fits),
      Verdict.flow (record { frame = f; whole = whole; ports = inr (udp, fits) }),
      λ _. refl,
    )
    | no misfit ↦ (
      malformed,
      ip_meta d,
      ground (arith, parse_udp-misfit d octets (l4_at d) (payload d) (ip_meta d) inside misfit),
      Verdict.bad_ports f whole (inr udp) (λ p. ground (arith, misfit)),
      λ e. cc,
    )
  ]

  l4-Judged : Judged d (parse_l4 d (payload d) (ip_meta d))
  unfolding parse_l4
  l4-Judged = elim (ℕ_discrete (protocol d) 6) [
    | yes tcp ↦ tcp-Judged tcp
    | no not_tcp ↦ elim (ℕ_discrete (protocol d) 17) [
      | yes udp ↦ udp-Judged udp
      | no not_udp ↦ (
        unsupported,
        ip_meta d,
        ground arith,
        Verdict.other_protocol f whole not_tcp not_udp,
        λ e. cc,
      )
    ]
  ]

module _ (d : List ℕ) (octets : All (λ b. b < 256) d) where
  ipv4-Judged :
      14 ≤ length d → be16 d 12 ≡ 0x0800 → Judged d (parse_ipv4 d (length d) (eth_meta 0x0800))
  ipv4-Judged eth e = elim (dec_IsIpv4Frame d) [
    | no bad ↦ (
      malformed,
      eth_meta 0x0800,
      parse_ipv4-bad d octets e bad,
      Verdict.bad_header eth e bad,
      λ e. cc,
    )
    | yes f ↦ elim (ℕ_discrete (be16 d 20 % 0x4000) 0) [
      | yes whole ↦ rw (parse_ipv4-whole d octets f whole) (l4-Judged d octets f whole)
      | no frag ↦ (
        unsupported,
        eth_meta 0x0800,
        parse_ipv4-fragment d octets f (omega arith),
        Verdict.fragment f (omega arith),
        λ e. cc,
      )
    ]
  ]

-- In a frame of one segment the parser ends without a fault, gives the result whose reason holds,
-- and reports of an accepted frame exactly its fields.
pub parse_frame-Judged :
    (m : Mbuf) (meta : Meta)
    → IsMbuf m
    → m.nb_segs ≡ 1
    → m.pkt_len ≡ m.data_len
    → Judged m.bytes (parse_frame m meta)
unfolding parse_frame
parse_frame-Judged m meta v one same = elim (dec_lt m.data_len 14) [
  | yes short ↦
      (malformed, zero_meta, ground arith, Verdict.truncated (omega (arith, v.held)), λ e. cc)
  | no long ↦ elim (ℕ_discrete (be16 m.bytes 12) 0x0800) [
    | yes e ↦
        let (r, meta₁, out, why, fields) = ipv4-Judged m.bytes v.octets (omega (arith, v.held)) e in
        (r, meta₁, ground (arith, out, v.held, v.short, load16-be16 m.bytes 12), why, fields)
    | no other ↦ (
      unsupported,
      eth_meta (be16 m.bytes 12),
      ground (arith, v.held, v.short, load16-be16 m.bytes 12),
      Verdict.other_type (omega (arith, v.held)) other,
      λ e. cc,
    )
  ]
]
