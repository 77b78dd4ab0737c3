-- ===== src/Action/Reparse.antt =====
-- A rewritten packet that is parsed again: dp_apply_action between two runs of dp_parse_packet.
use mathlib.Core.Path.{subst}
use dpdk_high_speed_flow_rou.Prelude.{
  ℕ, ◌+◌, ◌≤◌, ◌≡◌, ◌≢◌, inl, inr, refl, sym, ap, ◌∙◌, List, Option, some, arith, length, u16, pos,
}
use dpdk_high_speed_flow_rou.Packet.{Meta, Mbuf, IsMbuf, ParseResult, ok}
use dpdk_high_speed_flow_rou.Packet.Access.{byte}
use dpdk_high_speed_flow_rou.Packet.Writes.{Octets}
use dpdk_high_speed_flow_rou.Parser.{parse_frame}
use dpdk_high_speed_flow_rou.Parser.Frame.{IsFlowFrame, Verdict, meta_of, l4_at}
use dpdk_high_speed_flow_rou.Parser.Accept.{Judged, parse_frame-Judged}
use dpdk_high_speed_flow_rou.Rules.{Action, action_rewrite, rewrite_src_port, rewrite_dst_port}
use dpdk_high_speed_flow_rou.Action.{Checksums, asks, apply_to}
use dpdk_high_speed_flow_rou.Action.Effects.{
  Keeps, Outside, Keeps-trans, Keeps-be16, Keeps-be32, asked,
}
use dpdk_high_speed_flow_rou.Action.Rewrites.{Addressed, Ported, Written, rewrite_addresses-Gives}
use dpdk_high_speed_flow_rou.Action.Protocols.{rewrite_tcp-Gives, rewrite_udp-Gives}
use dpdk_high_speed_flow_rou.Action.Kept.{rewritten, IsOther, flow_kept, meta_kept}

pub Verdict-ok : (d : List ℕ) (r : ParseResult) → Verdict d r → IsFlowFrame d → r ≡ ok
Verdict-ok d r (Verdict.flow f) g = refl
Verdict-ok d r (Verdict.fragment f frag) g =
    let never : ⊥ = omega (arith, frag, g.whole) in elim never [ ]
Verdict-ok d r (Verdict.other_protocol f w t u) g = elim g.ports [
  | inl tcp ↦ elim (t tcp.0) [ ]
  | inr udp ↦ elim (u udp.0) [ ]
]
Verdict-ok d r (Verdict.other_type l t) g = elim (t g.frame.ipv4) [ ]
Verdict-ok d r (Verdict.truncated l) g =
    let never : ⊥ = omega (arith, l, g.frame.fixed) in elim never [ ]
Verdict-ok d r (Verdict.bad_header l t n) g = elim (n g.frame) [ ]
Verdict-ok d r (Verdict.bad_ports f w t n) g = elim (n g.ports) [ ]

Verdict-flow : (d : List ℕ) → Verdict d ok → IsFlowFrame d
Verdict-flow d (Verdict.flow f) = f

module _ (a : Action) (sums : Checksums) where
  -- What a rewrite of an acceptable frame leaves.
  abbrev Reworked : List ℕ → List ℕ → Type 0
  Reworked d e = Keeps (IsOther (meta_of d)) d e × Addressed a 14 d e × Ported a (l4_at d) d e

  reworked :
      (d e g : List ℕ) (at : ℕ)
      → 34 ≤ l4_at d
      → l4_at d + 4 ≤ at
      → ((j : ℕ) → IsOther (meta_of d) j → Outside at 2 j)
      → Keeps (Outside 26 8) d e
      → Addressed a 14 d e
      → Keeps (Written a sums (meta_of d) at) e g
      → Ported a (l4_at d) e g
      → Reworked d g
  reworked d e g at header high away k addressed l ported =
      let old = Keeps-be16 (Outside 26 8) d e (l4_at d) k (inr (omega arith)) (inr (omega arith)) in
      let old₂ =
        Keeps-be16 (Outside 26 8) d e (l4_at d + 2) k (inr (omega arith)) (inr (omega arith)) in
      let q = Written a sums (meta_of d) at in
      (
        Keeps-trans (Outside 26 8) q (IsOther (meta_of d)) d e g
            (λ j s. (ground (arith, s.0), (s.1, (ground (arith, s.0), away j s)))) k l,
        (
          Keeps-be32 q e g 26 l
                (λ j from to. (inl (omega arith), (inr (omega arith), inl (omega arith))))
              ∙ addressed.0,
          Keeps-be32 q e g 30 l
                (λ j from to. (inl (omega arith), (inr (omega arith), inl (omega arith))))
              ∙ addressed.1,
        ),
        (
          ported.0 ∙ ap (asked (asks a rewrite_src_port) (u16 a.src_port)) old,
          ported.1 ∙ ap (asked (asks a rewrite_dst_port) (u16 a.dst_port)) old₂,
        ),
      )

  -- A rewrite of an acceptable frame succeeds.
  apply_to-Reworked :
      (m : Mbuf)
      → IsMbuf m
      → IsFlowFrame m.bytes
      → a.type ≡ action_rewrite
      → a.rewrite_mask ≢ 0
      → (g : List ℕ) × (apply_to sums m (meta_of m.bytes) a ≡ some (pos 0, record m { bytes = g }))
        × Reworked m.bytes g
        × (length g ≡ length m.bytes)
        × (Octets m.bytes → Octets g)
  unfolding apply_to
  apply_to-Reworked m v f rewriting asks_some =
      let d = m.bytes in
      let header : 34 ≤ l4_at d = omega (arith, f.frame.least) in
      let (e, is, k, addressed) = rewrite_addresses-Gives a 14 d (omega (arith, f.frame.fixed)) in
      elim f.ports [
        | inl (tcp, t) ↦
            let (g, was, l, ported) =
              rewrite_tcp-Gives a sums (meta_of d) e (omega arith)
                (omega (arith, k.size, t.fixed, f.frame.header, f.frame.total)) in
            (
              g,
              ground (arith, rewriting, asks_some, is, was, tcp),
              reworked d e g (l4_at d + 16) header (omega arith) (λ j s. ground (arith, s.2, tcp)) k
                  addressed l ported,
              l.size ∙ k.size,
              λ o. l.octets (k.octets o),
            )
        | inr (udp, t) ↦
            let (g, was, l, ported) =
              rewrite_udp-Gives a sums (meta_of d) e (k.octets v.octets) (omega arith)
                (omega (arith, k.size, t.fixed, f.frame.header, f.frame.total)) in
            (
              g,
              ground (arith, rewriting, asks_some, is, was, udp),
              reworked d e g (l4_at d + 6) header (omega arith) (λ j s. ground (arith, s.2, udp)) k
                  addressed l ported,
              l.size ∙ k.size,
              λ o. l.octets (k.octets o),
            )
      ]

-- What a rewrite makes of an acceptable packet.
pub record IsRewritten (a : Action) (m m₁ : Mbuf) : Type 0 where
  pub sound : IsMbuf m₁
  pub flow : IsFlowFrame m₁.bytes
  pub fields : meta_of m₁.bytes ≡ rewritten a (meta_of m.bytes)
  pub addr : m₁.addr ≡ m.addr
  pub nb_segs : m₁.nb_segs ≡ m.nb_segs
  pub pkt_len : m₁.pkt_len ≡ m.pkt_len
  pub data_len : m₁.data_len ≡ m.data_len
  pub same : (j : ℕ) → IsOther (meta_of m.bytes) j → byte m₁.bytes j ≡ byte m.bytes j

pub apply_to-IsRewritten :
    (sums : Checksums) (m : Mbuf) (a : Action)
    → IsMbuf m
    → IsFlowFrame m.bytes
    → a.type ≡ action_rewrite
    → a.rewrite_mask ≢ 0
    → (m₁ : Mbuf) × (apply_to sums m (meta_of m.bytes) a ≡ some (pos 0, m₁)) × IsRewritten a m m₁
apply_to-IsRewritten sums m a v f rewriting asks_some =
    let (g, is, (k, addressed, ported), size, octets) =
      apply_to-Reworked a sums m v f rewriting asks_some in
    (
      record m { bytes = g },
      is,
      record {
        sound = record { held = v.held ∙ sym size; short = v.short; octets = octets v.octets };
        flow = flow_kept m.bytes g f k;
        fields = meta_kept m.bytes g f k a addressed ported;
        addr = refl;
        nb_segs = refl;
        pkt_len = refl;
        data_len = refl;
        same = k.same;
      },
    )

accepted_flow :
    (d : List ℕ) (meta : Meta) (out : Option (ParseResult × Meta))
    → Judged d out
    → out ≡ some (ok, meta)
    → IsFlowFrame d × (meta ≡ meta_of d)
accepted_flow d meta out (r, was, is, why, fields) gives =
    let as_ok : r ≡ ok = cc in
    let same : meta ≡ was = cc in
    (Verdict-flow d (subst (Verdict d) as_ok why), same ∙ fields as_ok)

flow_accepted :
    (d : List ℕ) (out : Option (ParseResult × Meta))
    → Judged d out
    → IsFlowFrame d
    → out ≡ some (ok, meta_of d)
flow_accepted d out (r, was, is, why, fields) f =
    let as_ok = Verdict-ok d r why f in let as_meta = fields as_ok in cc

-- Let a frame of one segment be accepted with some metadata, and let the action be a rewrite with a
-- mask that is not 0. Then the action succeeds, and the packet that it leaves is accepted again: the
-- fields that the mask names are those of the action and all other metadata are as before. The
-- frame is as long as it was, and only addresses, ports and checksums have changed in it.
pub parse_frame-apply_to :
    (sums : Checksums) (m : Mbuf) (meta before after : Meta) (a : Action)
    → IsMbuf m
    → m.nb_segs ≡ 1
    → m.pkt_len ≡ m.data_len
    → parse_frame m before ≡ some (ok, meta)
    → a.type ≡ action_rewrite
    → a.rewrite_mask ≢ 0
    → (m₁ : Mbuf) × (apply_to sums m meta a ≡ some (pos 0, m₁))
      × (parse_frame m₁ after ≡ some (ok, rewritten a meta))
      × (length m₁.bytes ≡ length m.bytes)
      × ((j : ℕ) → IsOther meta j → byte m₁.bytes j ≡ byte m.bytes j)
parse_frame-apply_to sums m meta before after a v one same accepted rewriting asks_some =
    let (f, is_meta) =
      accepted_flow m.bytes meta (parse_frame m before) (parse_frame-Judged m before v one same)
        accepted in
    let (m₁, is, w) = apply_to-IsRewritten sums m a v f rewriting asks_some in
    let again =
      flow_accepted m₁.bytes (parse_frame m₁ after)
        (parse_frame-Judged m₁ after w.sound (w.nb_segs ∙ one) (w.pkt_len ∙ same ∙ sym w.data_len))
        w.flow in
    let size : length m₁.bytes ≡ length m.bytes = sym w.sound.held ∙ w.data_len ∙ v.held in
    rw is_meta (m₁, is, again ∙ ap (λ x. some (ok, x)) w.fields, size, w.same)
