-- ===== src/Action/Total.antt =====
-- dp_apply_action on a frame that the parser accepts.
use dpdk_high_speed_flow_rou.Prelude.{
  ℕ, ◌+◌, ◌≤◌, ◌≡◌, ◌⊎◌, inl, inr, List, Option, refl, not, ◌||◌, some, arith, length, ◌==◌,
  Bool-cases, ℤ, pos, minus, einval,
}
use dpdk_high_speed_flow_rou.Packet.{Meta, Mbuf}
use dpdk_high_speed_flow_rou.Parser.Frame.{IsFlowFrame, meta_of}
use dpdk_high_speed_flow_rou.Rules.{
  Action, action_drop, action_forward, action_rewrite, validate_action,
}
use dpdk_high_speed_flow_rou.Action.{Checksums, apply_to}
use dpdk_high_speed_flow_rou.Action.Bounds.{
  rewrite_addresses-Fills, rewrite_tcp-Fills, rewrite_udp-Fills,
}

-- Where an action may be applied: the headers are within the segment.
pub record HasHeaders (n : ℕ) (meta : Meta) : Type 0 where
  pub ip : meta.l2_len + 20 ≤ n
  pub ports :
      ((meta.l4_proto ≡ 6) × (meta.l4_offset + 18 ≤ n))
      ⊎ ((meta.l4_proto ≡ 17) × (meta.l4_offset + 8 ≤ n))

-- No fault, a segment of the same length, and success for an action that was validated.
abbrev pub Applied : Mbuf → Action → Option (ℤ × Mbuf) → Type 0
Applied m a out =
    (ret : ℤ) × (m₁ : Mbuf) × (out ≡ some (ret, m₁))
    × (length m₁.bytes ≡ length m.bytes)
    × (validate_action a ≡ pos 0 → ret ≡ pos 0)

headers-Applied :
    (sums : Checksums) (m : Mbuf) (meta : Meta) (a : Action)
    → HasHeaders (length m.bytes) meta
    → Applied m a (apply_to sums m meta a)
unfolding apply_to validate_action
headers-Applied sums m meta a h =
    elim (Bool-cases (a.type == action_drop || a.type == action_forward)) [
      | inl plain ↦ rw plain (pos 0, m, refl, refl, λ v. refl)
      | inr other ↦ elim (Bool-cases (not (a.type == action_rewrite) || a.rewrite_mask == 0)) [
        | inl bad ↦ rw (other, bad) (minus einval, m, refl, refl, λ v. ground arith)
        | inr good ↦
            let n = length m.bytes in
            let (d, is₁, s₁) = rewrite_addresses-Fills n a meta.l2_len m.bytes refl h.ip in
            elim h.ports [
              | inl (tcp, fits) ↦
                  let (e, is, s) = rewrite_tcp-Fills n a sums meta d s₁ h.ip fits in
                  (
                    pos 0,
                    record m { bytes = e },
                    simp (other, good, is₁, tcp, is) refl,
                    s,
                    λ v. refl,
                  )
              | inr (udp, fits) ↦
                  let (e, is, s) = rewrite_udp-Fills n a sums meta d s₁ h.ip fits in
                  (
                    pos 0,
                    record m { bytes = e },
                    simp (other, good, is₁, udp, is) refl,
                    s,
                    λ v. refl,
                  )
            ]
      ]
    ]

flow-HasHeaders : (d : List ℕ) → IsFlowFrame d → HasHeaders (length d) (meta_of d)
flow-HasHeaders d f = record {
  ip = f.frame.fixed;
  ports = elim f.ports [
    | inl (tcp, fits) ↦ inl (tcp, omega (arith, fits.fixed, f.frame.header, f.frame.total))
    | inr (udp, fits) ↦ inr (udp, omega (arith, fits.fixed, f.frame.header, f.frame.total))
  ];
}

-- On a frame that the parser accepts an action is applied without a fault and the segment keeps its
-- length; an action that passed the validation succeeds.
pub apply_to-Applied :
    (sums : Checksums) (m : Mbuf) (a : Action)
    → IsFlowFrame m.bytes
    → Applied m a (apply_to sums m (meta_of m.bytes) a)
apply_to-Applied sums m a f = headers-Applied sums m (meta_of m.bytes) a (flow-HasHeaders m.bytes f)
