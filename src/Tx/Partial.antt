-- ===== src/Tx/Partial.antt =====
-- `dp_test_tx_partial_ownership` of dataplane/native/dp_tx.c. The mempool library is not in the
-- repository: its operations are a parameter, and its documented behaviour is stated as laws.
use dpdk_high_speed_flow_rou.Prelude.{
  ℕ, ◌+◌, ◌-◌, ◌≤◌, ◌≡◌, Bool, not, ◌||◌, ◌==◌, if◌then◌else◌, List, [], ◌∷◌, length, take, Option,
  none, some, ℤ, pos, minus, ebusy, enomem, eio, u64,
}
use dpdk_high_speed_flow_rou.Tables.{TableApi}
use dpdk_high_speed_flow_rou.Packet.{Mbuf}
use dpdk_high_speed_flow_rou.Stats.{PacketStats, zero_stats}
use dpdk_high_speed_flow_rou.State.{Dp}
use dpdk_high_speed_flow_rou.Tx.{addrs, complete_tx}

-- A pool of mbufs: creation and allocation may fail, a free is by address.
pub record PoolApi : Type 1 where
  pub Pool : Type 0
  pub pool_create : ℕ → Option Pool
  pub alloc_bulk : Pool → ℕ → Option (List Mbuf × Pool)
  pub mbuf_free : ℕ → Pool → Pool
  pub in_use_count : Pool → ℕ

abbrev pub occurs : ℕ → List ℕ → ℕ
occurs a [] = 0
occurs a (b ∷ bs) = (if b == a then 1 else 0) + occurs a bs

pub record PoolLaws (api : PoolApi) : Type 0 where
  -- How often an address is in use.
  pub held : api.Pool → ℕ → ℕ
  pub in_use-create :
      (n : ℕ) (p : api.Pool)
      → api.pool_create n ≡ some p
      → (api.in_use_count p ≡ 0) × ((a : ℕ) → held p a ≡ 0)
  pub in_use-alloc :
      (p q : api.Pool) (n : ℕ) (ms : List Mbuf)
      → api.alloc_bulk p n ≡ some (ms, q)
      → (length ms ≡ n)
        × (api.in_use_count q ≡ api.in_use_count p + n)
        × ((a : ℕ) → held q a ≡ held p a + occurs a (addrs ms))
  -- A mbuf that is in use may be freed, once.
  pub in_use-free :
      (p : api.Pool) (a : ℕ)
      → 1 ≤ held p a
      → (api.in_use_count (api.mbuf_free a p) + 1 ≡ api.in_use_count p)
        × ((b : ℕ) → held (api.mbuf_free a p) b + (if a == b then 1 else 0) ≡ held p b)

abbrev pub test_stats : PacketStats
test_stats = record zero_stats { rx = 4; parse_ok = 4; flow_hit = 4; action_forward = 4 }

-- The test behind `dp_complete_tx`.
unfoldable pub is_wrong_tx : PacketStats → ℕ → Bool
is_wrong_tx s in_use =
    not (s.rx == 4)
    || not (s.parse_ok == 4)
    || not (s.flow_hit == 4)
    || not (s.action_forward == 4)
    || not (s.tx_accepted == 2)
    || not (s.tx_unsent == 2)
    || not (s.drop == 2)
    || not (s.rx == u64 (s.parse_ok + s.parse_unsupported + s.parse_malformed))
    || not (s.parse_ok == u64 (s.flow_hit + s.route_hit + s.lookup_miss))
    || not (s.parse_ok == u64 (s.action_drop + s.action_forward + s.action_rewrite))
    || not (u64 (s.action_forward + s.action_rewrite) == u64 (s.tx_accepted + s.tx_unsent))
    || not (s.drop == u64 (s.parse_unsupported + s.parse_malformed + s.action_drop + s.tx_unsent))
    || not (in_use == 2)

module _ (pools : PoolApi) where
  abbrev pub free_all : List ℕ → pools.Pool → pools.Pool
  free_all [] p = p
  free_all (a ∷ rest) p = free_all rest (pools.mbuf_free a p)

  -- The test on the four mbufs, of which the driver is taken to accept two.
  unfoldable pub tx_tested : List Mbuf → pools.Pool → ℤ
  tx_tested pkts pool =
      let (stats, freed) = complete_tx pkts 4 2 test_stats in
      let pool₁ = free_all freed pool in
      let ret = if is_wrong_tx stats (pools.in_use_count pool₁) then minus eio else pos 0 in
      let pool₂ = free_all (addrs (take 2 pkts)) pool₁ in
      if not (pools.in_use_count pool₂ == 0) then minus eio else ret

  -- The code, and how many pools there are.
  unfoldable pub test_tx_partial_ownership : {api : TableApi} → Dp api → ℕ → ℤ × ℕ
  test_tx_partial_ownership dp count =
      if not dp.initialized || (dp.running || dp.pool)
      then (minus ebusy, count)
      else elim (pools.pool_create 63) [
        | none ↦ (minus enomem, count)
        | some pool ↦ elim (pools.alloc_bulk pool 4) [
          | none ↦ (minus enomem, count + 1 - 1)
          | some (pkts, pool₁) ↦ (tx_tested pkts pool₁, count + 1 - 1)
        ]
      ]
