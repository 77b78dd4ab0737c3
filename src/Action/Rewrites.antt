-- ===== src/Action/Rewrites.antt =====
-- The stages of a rewrite in dp_apply_action: addresses, ports, checksums.
use dpdk_high_speed_flow_rou.Prelude.{
  ℕ, ◌+◌, ◌≤◌, ◌≡◌, inl, inr, ap, ◌∙◌, List, Option, arith, length, ◌>>=◌, u16, u32,
}
use dpdk_high_speed_flow_rou.Packet.{Meta, store16}
use dpdk_high_speed_flow_rou.Packet.Access.{be16, be32}
use dpdk_high_speed_flow_rou.Rules.{
  Action, rewrite_src_ipv4, rewrite_dst_ipv4, rewrite_src_port, rewrite_dst_port,
}
use dpdk_high_speed_flow_rou.Action.{
  Checksums, asks, store16_if, store32_if, rewrite_ports, rewrite_addresses, update_ipv4_cksum,
}
use dpdk_high_speed_flow_rou.Action.Effects.{
  Outside, Gives, bind-Gives, Keeps-be16, Keeps-be32, asked, store16-Gives, store16_if-Gives,
  store32_if-Gives,
}

module _ (a : Action) where
  -- The two addresses of the header at `l2`.
  abbrev pub Addressed : ℕ → List ℕ → List ℕ → Type 0
  Addressed l2 d e =
      (be32 e (l2 + 12) ≡ asked (asks a rewrite_src_ipv4) (u32 a.src_ipv4) (be32 d (l2 + 12)))
      × (be32 e (l2 + 16) ≡ asked (asks a rewrite_dst_ipv4) (u32 a.dst_ipv4) (be32 d (l2 + 16)))

  abbrev pub Ported : ℕ → List ℕ → List ℕ → Type 0
  Ported l4 d e =
      (be16 e l4 ≡ asked (asks a rewrite_src_port) (u16 a.src_port) (be16 d l4))
      × (be16 e (l4 + 2) ≡ asked (asks a rewrite_dst_port) (u16 a.dst_port) (be16 d (l4 + 2)))

  pub rewrite_ports-Gives :
      (l4 : ℕ) (d : List ℕ)
      → l4 + 4 ≤ length d
      → Gives (Outside l4 4) d (rewrite_ports a l4 d) (Ported l4 d)
  unfolding rewrite_ports
  rewrite_ports-Gives l4 d h =
      bind-Gives (Outside l4 2) (Outside (l4 + 2) 2) (Outside l4 4) d
        (store16_if (asks a rewrite_src_port) d l4 a.src_port)
        (λ d₁. store16_if (asks a rewrite_dst_port) d₁ (l4 + 2) a.dst_port)
        (λ e. be16 e l4 ≡ asked (asks a rewrite_src_port) (u16 a.src_port) (be16 d l4))
        (Ported l4 d) (λ j s. ground arith) (store16_if-Gives _ d l4 _ (omega arith))
        (λ e k held.
          let (g, is, kept, low) =
            store16_if-Gives (asks a rewrite_dst_port) e (l4 + 2) a.dst_port
              (omega (arith, k.size)) in
          let first =
            Keeps-be16 (Outside (l4 + 2) 2) e g l4 kept (inl (omega arith)) (inl (omega arith)) in
          let old =
            Keeps-be16 (Outside l4 2) d e (l4 + 2) k (inr (omega arith)) (inr (omega arith)) in
          (
            g,
            is,
            kept,
            (first ∙ held, low ∙ ap (asked (asks a rewrite_dst_port) (u16 a.dst_port)) old),
          ))

  pub rewrite_addresses-Gives :
      (l2 : ℕ) (d : List ℕ)
      → l2 + 20 ≤ length d
      → Gives (Outside (l2 + 12) 8) d (rewrite_addresses a l2 d) (Addressed l2 d)
  unfolding rewrite_addresses
  rewrite_addresses-Gives l2 d h =
      bind-Gives (Outside (l2 + 12) 4) (Outside (l2 + 16) 4) (Outside (l2 + 12) 8) d
        (store32_if (asks a rewrite_src_ipv4) d (l2 + 12) a.src_ipv4)
        (λ d₁. store32_if (asks a rewrite_dst_ipv4) d₁ (l2 + 16) a.dst_ipv4)
        (λ e.
          be32 e (l2 + 12) ≡ asked (asks a rewrite_src_ipv4) (u32 a.src_ipv4) (be32 d (l2 + 12)))
        (Addressed l2 d) (λ j s. ground arith) (store32_if-Gives _ d (l2 + 12) _ (omega arith))
        (λ e k held.
          let (g, is, kept, low) =
            store32_if-Gives (asks a rewrite_dst_ipv4) e (l2 + 16) a.dst_ipv4
              (omega (arith, k.size)) in
          let first =
            Keeps-be32 (Outside (l2 + 16) 4) e g (l2 + 12) kept (λ j from to. inl (omega arith)) in
          let old =
            Keeps-be32 (Outside (l2 + 12) 4) d e (l2 + 16) k (λ j from to. inr (omega arith)) in
          (
            g,
            is,
            kept,
            (first ∙ held, low ∙ ap (asked (asks a rewrite_dst_ipv4) (u32 a.dst_ipv4)) old),
          ))

  -- The bytes that are neither the IPv4 checksum nor the checksum at `at`.
  abbrev pub Sealed : ℕ → ℕ → ℕ → Type 0
  Sealed l2 at j = Outside (l2 + 10) 2 j × Outside at 2 j

  abbrev Anything : List ℕ → Type 0
  Anything e = Unit {0}

  module _ (sums : Checksums) where
    update_ipv4_cksum-Gives :
        (l2 : ℕ) (d : List ℕ)
        → l2 + 20 ≤ length d
        → Gives (Outside (l2 + 10) 2) d (update_ipv4_cksum sums l2 d) Anything
    unfolding update_ipv4_cksum
    update_ipv4_cksum-Gives l2 d h =
        bind-Gives (Outside (l2 + 10) 2) (Outside (l2 + 10) 2) (Outside (l2 + 10) 2) d
          (store16 d (l2 + 10) 0) (λ d₁. store16 d₁ (l2 + 10) (sums.ipv4_cksum d₁ l2))
          (λ e. be16 e (l2 + 10) ≡ u16 0) Anything (λ j s. (s, s))
          (store16-Gives d (l2 + 10) 0 (omega arith))
          (λ e k held.
            let (g, is, kept, low) =
              store16-Gives e (l2 + 10) (sums.ipv4_cksum e l2) (omega (arith, k.size)) in
            (g, is, kept, tt))

    -- The first part of both protocols: ports, the checksum to zero, the IPv4 checksum.
    abbrev pub prepared : Meta → ℕ → List ℕ → Option (List ℕ)
    prepared meta at d = do
      d₁ ← rewrite_ports a meta.l4_offset d
      d₂ ← store16 d₁ at 0
      update_ipv4_cksum sums meta.l2_len d₂

    abbrev pub Written : Meta → ℕ → ℕ → Type 0
    Written meta at j = Outside meta.l4_offset 4 j × Sealed meta.l2_len at j

    pub prepared-Gives :
        (meta : Meta) (at : ℕ) (d : List ℕ)
        → meta.l2_len + 20 ≤ meta.l4_offset
        → meta.l4_offset + 4 ≤ at
        → at + 2 ≤ length d
        → Gives (Written meta at) d (prepared meta at d) (Ported meta.l4_offset d)
    prepared-Gives meta at d low mid high =
        bind-Gives (Outside meta.l4_offset 4) (Sealed meta.l2_len at) (Written meta at) d
          (rewrite_ports a meta.l4_offset d)
          (λ d₁. store16 d₁ at 0 >>= λ d₂. update_ipv4_cksum sums meta.l2_len d₂)
          (Ported meta.l4_offset d) (Ported meta.l4_offset d) (λ j s. s)
          (rewrite_ports-Gives meta.l4_offset d (omega arith))
          (λ e k held.
            let (g, is, kept, rest) =
              bind-Gives (Outside at 2) (Outside (meta.l2_len + 10) 2) (Sealed meta.l2_len at) e
                (store16 e at 0) (λ d₂. update_ipv4_cksum sums meta.l2_len d₂)
                (λ x. be16 x at ≡ u16 0) Anything (λ j s. (s.1, s.0))
                (store16-Gives e at 0 (omega (arith, k.size)))
                (λ x l z. update_ipv4_cksum-Gives meta.l2_len x (omega (arith, k.size, l.size))) in
            let one =
              Keeps-be16 (Sealed meta.l2_len at) e g meta.l4_offset kept
                (inr (omega arith), inl (omega arith)) (inr (omega arith), inl (omega arith)) in
            let two =
              Keeps-be16 (Sealed meta.l2_len at) e g (meta.l4_offset + 2) kept
                (inr (omega arith), inl (omega arith)) (inr (omega arith), inl (omega arith)) in
            (g, is, kept, (one ∙ held.0, two ∙ held.1)))
