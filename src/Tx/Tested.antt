-- ===== src/Tx/Tested.antt =====
-- What `dp_test_tx_partial_ownership` finds.
use dpdk_high_speed_flow_rou.Prelude.{
  ℕ, Bool, ◌+◌, ◌≤◌, ◌≡◌, inl, inr, refl, true, false, not, ◌||◌, Bool-cases, Option-cases, List,
  [], ◌∷◌, length, none, some, ℤ, pos, minus, ebusy, enomem, arith,
}
use dpdk_high_speed_flow_rou.Tables.{TableApi}
use dpdk_high_speed_flow_rou.Packet.{Mbuf}
use dpdk_high_speed_flow_rou.State.{Dp}
use dpdk_high_speed_flow_rou.Tx.{addrs, complete_tx}
use dpdk_high_speed_flow_rou.Tx.Partial.{
  PoolApi, PoolLaws, occurs, test_stats, is_wrong_tx, free_all, tx_tested,
  test_tx_partial_ownership,
}

abbrev pub is_busy : {api : TableApi} → Dp api → Bool
is_busy dp = not dp.initialized || (dp.running || dp.pool)

-- The code of the test, with its reason.
pub data Tested (pools : PoolApi) {api : TableApi} (dp : Dp api) : ℤ → Type 0 where
  busy : is_busy dp ≡ true → Tested pools dp (minus ebusy)
  no_pool : is_busy dp ≡ false → pools.pool_create 63 ≡ none → Tested pools dp (minus enomem)
  no_mbufs :
      (p : pools.Pool)
      → is_busy dp ≡ false
      → pools.pool_create 63 ≡ some p
      → pools.alloc_bulk p 4 ≡ none
      → Tested pools dp (minus enomem)
  passed :
      (p q : pools.Pool) (ms : List Mbuf)
      → is_busy dp ≡ false
      → pools.pool_create 63 ≡ some p
      → pools.alloc_bulk p 4 ≡ some (ms, q)
      → Tested pools dp (pos 0)

module _ {pools : PoolApi} (laws : PoolLaws pools) where
  -- The frees of mbufs that are in use, each as often as it is handed out.
  free_all-in_use :
      (xs : List ℕ) (p : pools.Pool)
      → ((a : ℕ) → occurs a xs ≤ laws.held p a)
      → (pools.in_use_count (free_all pools xs p) + length xs ≡ pools.in_use_count p)
        × ((a : ℕ) → laws.held (free_all pools xs p) a + occurs a xs ≡ laws.held p a)
  free_all-in_use [] p h = (omega arith, λ a. omega arith)
  free_all-in_use (x ∷ xs) p h =
      let (one, others) = laws.in_use-free p x (ground (arith, h x)) in
      let (rest, left) =
        free_all-in_use xs (pools.mbuf_free x p) (λ a. ground (arith, h a, others a)) in
      (omega (arith, one, rest), λ a. ground (arith, others a, left a))

  right_stats :
      (a b c d : Mbuf) → is_wrong_tx (complete_tx (a ∷ b ∷ c ∷ d ∷ []) 4 2 test_stats).0 2 ≡ false
  unfolding is_wrong_tx complete_tx
  right_stats a b c d = refl

  tx_tested-four :
      (a b c d : Mbuf) (q : pools.Pool)
      → pools.in_use_count q ≡ 4
      → ((x : ℕ) → laws.held q x ≡ occurs x (addrs (a ∷ b ∷ c ∷ d ∷ [])))
      → tx_tested pools (a ∷ b ∷ c ∷ d ∷ []) q ≡ pos 0
  unfolding tx_tested complete_tx
  tx_tested-four a b c d q in_use held =
      let tail = addrs (c ∷ d ∷ []) in
      let head = addrs (a ∷ b ∷ []) in
      let (two, kept) = free_all-in_use tail q (λ x. rw (held x) (omega arith)) in
      let (none_left, gone) =
        free_all-in_use head (free_all pools tail q) (λ x. omega (arith, kept x, held x)) in
      let half : pools.in_use_count (free_all pools tail q) ≡ 2 = omega (arith, two, in_use) in
      let clear : pools.in_use_count (free_all pools head (free_all pools tail q)) ≡ 0 =
        omega (arith, none_left, half) in
      rw (clear, half, right_stats a b c d) refl

  tx_tested-sized :
      (ms : List Mbuf) (q : pools.Pool)
      → length ms ≡ 4
      → pools.in_use_count q ≡ 4
      → ((x : ℕ) → laws.held q x ≡ occurs x (addrs ms))
      → tx_tested pools ms q ≡ pos 0
  tx_tested-sized [] q e n h = absurd (omega arith)
  tx_tested-sized (a ∷ []) q e n h = absurd (omega arith)
  tx_tested-sized (a ∷ b ∷ []) q e n h = absurd (omega arith)
  tx_tested-sized (a ∷ b ∷ c ∷ []) q e n h = absurd (omega arith)
  tx_tested-sized (a ∷ b ∷ c ∷ d ∷ []) q e n h = tx_tested-four a b c d q n h
  tx_tested-sized (a ∷ b ∷ c ∷ d ∷ f ∷ ms) q e n h = absurd (omega arith)

  tx_tested-pos :
      (p q : pools.Pool) (ms : List Mbuf)
      → pools.pool_create 63 ≡ some p
      → pools.alloc_bulk p 4 ≡ some (ms, q)
      → tx_tested pools ms q ≡ pos 0
  tx_tested-pos p q ms created allocated =
      let (empty, bare) = laws.in_use-create 63 p created in
      let (size, more, out) = laws.in_use-alloc p q 4 ms allocated in
      tx_tested-sized ms q size (omega (arith, empty, more)) (λ x. omega (arith, out x, bare x))

  -- The test leaves as many pools as there were. It gives -EBUSY where the dataplane is not idle,
  -- and else -ENOMEM where the pool or its mbufs are refused; in every other case it runs to its end
  -- and gives 0.
  pub test_tx_partial_ownership-Tested :
      {api : TableApi} (dp : Dp api) (count : ℕ)
      → let (ret, left) = test_tx_partial_ownership pools dp count in
        (left ≡ count) × Tested pools dp ret
  unfolding test_tx_partial_ownership
  test_tx_partial_ownership-Tested dp count = elim (Bool-cases (is_busy dp)) [
    | inl e ↦ rw e (refl, busy e)
    | inr idle ↦ elim (Option-cases (pools.pool_create 63)) [
      | inl e ↦ rw (idle, e) (refl, no_pool idle e)
      | inr (p, made) ↦ elim (Option-cases (pools.alloc_bulk p 4)) [
        | inl e ↦ rw (idle, made, e) (omega arith, no_mbufs p idle made e)
        | inr ((ms, q), e) ↦
            rw (idle, made, e, tx_tested-pos p q ms made e) (omega arith, passed p q ms idle made e)
      ]
    ]
  ]
