-- ===== src/Action/Protocols.antt =====
-- A rewrite of a TCP and of a UDP packet as a whole.
use dpdk_high_speed_flow_rou.Prelude.{
  ℕ, ◌+◌, ◌≤◌, ◌≡◌, inl, refl, ◌∙◌, List, Option, some, arith, length, ◌>>=◌, >>=-eq-some, u16,
  ℕ_discrete,
}
use dpdk_high_speed_flow_rou.Packet.{Meta, load16, store16}
use dpdk_high_speed_flow_rou.Packet.Access.{be16, load16-be16, byte-lt}
use dpdk_high_speed_flow_rou.Packet.Writes.{Octets}
use dpdk_high_speed_flow_rou.Rules.{Action}
use dpdk_high_speed_flow_rou.Action.{
  Checksums, rewrite_ports, update_ipv4_cksum, rewrite_tcp, rewrite_udp,
}
use dpdk_high_speed_flow_rou.Action.Effects.{
  Keeps, Outside, Gives, Keeps-trans, Keeps-be16, store16-Gives,
}
use dpdk_high_speed_flow_rou.Action.Rewrites.{Ported, Written, prepared-Gives}

-- To go on behind three steps that gave a result.
three_steps :
    (o : Option (List ℕ)) (f g h : List ℕ → Option (List ℕ)) (e : List ℕ)
    → (o >>= λ x. f x >>= λ y. g y) ≡ some e
    → (o >>= λ x. f x >>= λ y. g y >>= h) ≡ h e
three_steps o f g h e is =
    let (x, ox, rest) = >>=-eq-some o (λ x. f x >>= λ y. g y) is in
    let (y, fy, gy) = >>=-eq-some (f x) (λ y. g y) rest in rw (ox, fy, gy) refl

module _ (a : Action) (sums : Checksums) (meta : Meta) where
  -- A field away from what is written, two bytes wide.
  ports_kept :
      (Q : ℕ → Type 0) (d e f : List ℕ)
      → Q meta.l4_offset
        × Q (meta.l4_offset + 1)
        × Q (meta.l4_offset + 2)
        × Q (meta.l4_offset + 2 + 1)
      → Keeps Q e f
      → Ported a meta.l4_offset d e
      → Ported a meta.l4_offset d f
  ports_kept Q d e f q k p = (
    Keeps-be16 Q e f meta.l4_offset k q.0 q.1 ∙ p.0,
    Keeps-be16 Q e f (meta.l4_offset + 2) k q.2 q.3 ∙ p.1,
  )

  pub rewrite_tcp-Gives :
      (d : List ℕ)
      → meta.l2_len + 20 ≤ meta.l4_offset
      → meta.l4_offset + 18 ≤ length d
      → Gives
          (Written a sums meta (meta.l4_offset + 16))
          d
          (rewrite_tcp sums a meta d)
          (Ported a meta.l4_offset d)
  unfolding rewrite_tcp
  rewrite_tcp-Gives d low high =
      let at = meta.l4_offset + 16 in
      let (e, is, kept, ported) = prepared-Gives a sums meta at d low (omega arith) (omega arith) in
      let last = λ (x : List ℕ). store16 x at (sums.udptcp_cksum x meta.l2_len meta.l4_offset) in
      let (g, was, left, held) =
        store16-Gives e at (sums.udptcp_cksum e meta.l2_len meta.l4_offset)
          (omega (arith, kept.size)) in
      (
        g,
        three_steps (rewrite_ports a meta.l4_offset d) (λ d₁. store16 d₁ at 0)
              (update_ipv4_cksum sums meta.l2_len) last e is
            ∙ was,
        Keeps-trans (Written a sums meta at) (Outside at 2) (Written a sums meta at) d e g
            (λ j s. (s, s.1.1)) kept left,
        ports_kept (Outside at 2) d e g
            (inl (omega arith), inl (omega arith), inl (omega arith), inl (omega arith)) left
            ported,
      )

-- A field that is written, and written back behind another write.
detour-Gives :
    (e : List ℕ) (i at x : ℕ) (sum : List ℕ → ℕ)
    → i + 2 ≤ at
    → at + 2 ≤ length e
    → Octets e
    → Gives
        (Outside at 2)
        e
        (store16 e i x >>= λ d₄. store16 d₄ at (sum d₄) >>= λ d₅. store16 d₅ i (be16 e i))
        (λ g. Octets g)
detour-Gives e i at x sum low high o =
    let (d₄, is₄, k₄, h₄) = store16-Gives e i x (omega arith) in
    let (d₅, is₅, k₅, h₅) = store16-Gives d₄ at (sum d₄) (omega (arith, k₄.size)) in
    let (g, is, k, held) = store16-Gives d₅ i (be16 e i) (omega (arith, k₄.size, k₅.size)) in
    let og = k.octets (k₅.octets (k₄.octets o)) in
    let b₀ = byte-lt e i o in
    let b₁ = byte-lt e (i + 1) o in
    let c₀ = byte-lt g i og in
    let c₁ = byte-lt g (i + 1) og in
    (
      g,
      rw (is₄, is₅) is,
      record {
        size = k.size ∙ k₅.size ∙ k₄.size;
        octets = λ p. og;
        same = λ j out. elim (ℕ_discrete j i) [
          | yes at_i ↦ rw at_i (omega (arith, held, b₀, b₁, c₀, c₁))
          | no n ↦ elim (ℕ_discrete j (i + 1)) [
            | yes next ↦ rw next (omega (arith, held, b₀, b₁, c₀, c₁))
            | no m ↦
                let away : Outside i 2 j = ground arith in
                k.same j away ∙ k₅.same j out ∙ k₄.same j away
          ]
        ];
      },
      og,
    )

module _ (a : Action) (sums : Checksums) (meta : Meta) where
  pub rewrite_udp-Gives :
      (d : List ℕ)
      → Octets d
      → meta.l2_len + 20 ≤ meta.l4_offset
      → meta.l4_offset + 8 ≤ length d
      → Gives
          (Written a sums meta (meta.l4_offset + 6))
          d
          (rewrite_udp sums a meta d)
          (Ported a meta.l4_offset d)
  unfolding rewrite_udp
  rewrite_udp-Gives d o low high =
      let at = meta.l4_offset + 6 in
      let (e, is, kept, ported) = prepared-Gives a sums meta at d low (omega arith) (omega arith) in
      let udp_length = be16 e (meta.l4_offset + 4) in
      let (g, was, left, held) =
        detour-Gives e (meta.l2_len + 2) at (u16 (meta.l3_len + udp_length))
          (λ x. sums.udptcp_cksum x meta.l2_len meta.l4_offset) (omega arith)
          (omega (arith, kept.size)) (kept.octets o) in
      let last = λ (x : List ℕ). (do
        ipv4_total_length ← load16 x (meta.l2_len + 2)
        udp_length ← load16 x (meta.l4_offset + 4)
        d₄ ← store16 x (meta.l2_len + 2) (u16 (meta.l3_len + udp_length))
        d₅ ← store16 d₄ at (sums.udptcp_cksum d₄ meta.l2_len meta.l4_offset)
        store16 d₅ (meta.l2_len + 2) ipv4_total_length) in
      let loads : last e ≡ some g =
        rw
          (
            load16-be16 e (meta.l2_len + 2) (omega (arith, kept.size)),
            load16-be16 e (meta.l4_offset + 4) (omega (arith, kept.size)),
          )
          was in
      (
        g,
        three_steps (rewrite_ports a meta.l4_offset d) (λ d₁. store16 d₁ at 0)
              (update_ipv4_cksum sums meta.l2_len) last e is
            ∙ loads,
        Keeps-trans (Written a sums meta at) (Outside at 2) (Written a sums meta at) d e g
            (λ j s. (s, s.1.1)) kept left,
        ports_kept a sums meta (Outside at 2) d e g
            (inl (omega arith), inl (omega arith), inl (omega arith), inl (omega arith)) left
            ported,
      )
