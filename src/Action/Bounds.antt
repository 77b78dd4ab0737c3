-- ===== src/Action/Bounds.antt =====
-- The writes of dp_apply_action stay within the segment, and keep its length.
use dpdk_high_speed_flow_rou.Prelude.{
  ℕ, ◌+◌, ◌/◌, ◌%◌, ◌≤◌, ◌<◌, ◌≡◌, refl, ◌∙◌, Bool, true, false, List, Option, some, arith, length,
  ◌>>=◌,
}
use dpdk_high_speed_flow_rou.Packet.{Meta, load16, store16, store32}
use dpdk_high_speed_flow_rou.Packet.Access.{be16, load16-be16}
use dpdk_high_speed_flow_rou.Packet.Writes.{store16-Patched}
use dpdk_high_speed_flow_rou.Rules.{Action}
use dpdk_high_speed_flow_rou.Action.{
  Checksums, store16_if, store32_if, rewrite_ports, rewrite_addresses, update_ipv4_cksum,
  rewrite_tcp, rewrite_udp,
}

-- A computation gives bytes, as many as there were.
abbrev pub Fills : ℕ → Option (List ℕ) → Type 0
Fills n o = (e : List ℕ) × (o ≡ some e) × (length e ≡ n)

pub bind-Fills :
    (n : ℕ) (o : Option (List ℕ)) (f : List ℕ → Option (List ℕ))
    → Fills n o
    → ((e : List ℕ) → length e ≡ n → Fills n (f e))
    → Fills n (o >>= f)
bind-Fills n o f (e, is, size) next = rw is (next e size)

load-Fills :
    (n i : ℕ) (d : List ℕ) (f : ℕ → Option (List ℕ))
    → length d ≡ n
    → i + 1 < n
    → ((v : ℕ) → Fills n (f v))
    → Fills n (load16 d i >>= f)
load-Fills n i d f size h next = rw (load16-be16 d i (omega arith)) (next (be16 d i))

store16-Fills : (n i v : ℕ) (d : List ℕ) → length d ≡ n → i + 1 < n → Fills n (store16 d i v)
store16-Fills n i v d size h =
    let (e, is, patched, held) = store16-Patched d i v (omega arith) in
    (e, is, patched.same_length ∙ size)

store32-Fills : (n i v : ℕ) (d : List ℕ) → length d ≡ n → i + 3 < n → Fills n (store32 d i v)
unfolding store32
store32-Fills n i v d size h =
    bind-Fills n _ _ (store16-Fills n i (v / 65536 % 65536) d size (omega arith))
      (λ e same. store16-Fills n (i + 2) (v % 65536) e same (omega arith))

store16_if-Fills :
    (n i v : ℕ) (b : Bool) (d : List ℕ) → length d ≡ n → i + 1 < n → Fills n (store16_if b d i v)
unfolding store16_if
store16_if-Fills n i v true d size h = store16-Fills n i v d size h
store16_if-Fills n i v false d size h = (d, refl, size)

store32_if-Fills :
    (n i v : ℕ) (b : Bool) (d : List ℕ) → length d ≡ n → i + 3 < n → Fills n (store32_if b d i v)
unfolding store32_if
store32_if-Fills n i v true d size h = store32-Fills n i v d size h
store32_if-Fills n i v false d size h = (d, refl, size)

module _ (n : ℕ) (a : Action) where
  rewrite_ports-Fills :
      (l4 : ℕ) (d : List ℕ) → length d ≡ n → l4 + 4 ≤ n → Fills n (rewrite_ports a l4 d)
  unfolding rewrite_ports
  rewrite_ports-Fills l4 d size h =
      bind-Fills n _ _ (store16_if-Fills n l4 _ _ d size (omega arith))
        (λ e same. store16_if-Fills n (l4 + 2) _ _ e same (omega arith))

  pub rewrite_addresses-Fills :
      (l2 : ℕ) (d : List ℕ) → length d ≡ n → l2 + 20 ≤ n → Fills n (rewrite_addresses a l2 d)
  unfolding rewrite_addresses
  rewrite_addresses-Fills l2 d size h =
      bind-Fills n _ _ (store32_if-Fills n (l2 + 12) _ _ d size (omega arith))
        (λ e same. store32_if-Fills n (l2 + 16) _ _ e same (omega arith))

  module _ (sums : Checksums) where
    update_ipv4_cksum-Fills :
        (l2 : ℕ) (d : List ℕ) → length d ≡ n → l2 + 20 ≤ n → Fills n (update_ipv4_cksum sums l2 d)
    unfolding update_ipv4_cksum
    update_ipv4_cksum-Fills l2 d size h =
        bind-Fills n _ _ (store16-Fills n (l2 + 10) 0 d size (omega arith))
          (λ e same. store16-Fills n (l2 + 10) _ e same (omega arith))

    pub rewrite_tcp-Fills :
        (meta : Meta) (d : List ℕ)
        → length d ≡ n
        → meta.l2_len + 20 ≤ n
        → meta.l4_offset + 18 ≤ n
        → Fills n (rewrite_tcp sums a meta d)
    unfolding rewrite_tcp
    rewrite_tcp-Fills meta d size h l =
        bind-Fills n _ _ (rewrite_ports-Fills meta.l4_offset d size (omega arith)) (λ d₁ s₁.
          bind-Fills n _ _ (store16-Fills n (meta.l4_offset + 16) 0 d₁ s₁ (omega arith)) (λ d₂ s₂.
            bind-Fills n _ _ (update_ipv4_cksum-Fills meta.l2_len d₂ s₂ h)
              (λ d₃ s₃. store16-Fills n (meta.l4_offset + 16) _ d₃ s₃ (omega arith))))

    pub rewrite_udp-Fills :
        (meta : Meta) (d : List ℕ)
        → length d ≡ n
        → meta.l2_len + 20 ≤ n
        → meta.l4_offset + 8 ≤ n
        → Fills n (rewrite_udp sums a meta d)
    unfolding rewrite_udp
    rewrite_udp-Fills meta d size h l =
        bind-Fills n _ _ (rewrite_ports-Fills meta.l4_offset d size (omega arith)) (λ d₁ s₁.
          bind-Fills n _ _ (store16-Fills n (meta.l4_offset + 6) 0 d₁ s₁ (omega arith)) (λ d₂ s₂.
            bind-Fills n _ _ (update_ipv4_cksum-Fills meta.l2_len d₂ s₂ h) (λ d₃ s₃.
              load-Fills n (meta.l2_len + 2) d₃ _ s₃ (omega arith) (λ total.
                load-Fills n (meta.l4_offset + 4) d₃ _ s₃ (omega arith) (λ udp.
                  bind-Fills n _ _ (store16-Fills n (meta.l2_len + 2) _ d₃ s₃ (omega arith))
                    (λ d₄ s₄.
                      bind-Fills n _ _ (store16-Fills n (meta.l4_offset + 6) _ d₄ s₄ (omega arith))
                        (λ d₅ s₅. store16-Fills n (meta.l2_len + 2) total d₅ s₅ (omega arith))))))))
