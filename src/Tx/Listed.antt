-- ===== src/Tx/Listed.antt =====
-- A pool that satisfies the laws: it hands out fresh addresses, and lists those in use.
use mathlib.Core.Path.{subst}
use dpdk_high_speed_flow_rou.Prelude.{
  ℕ, zero, suc, ◌+◌, ◌≤◌, ◌≡◌, refl, List, [], ◌∷◌, ◌++◌, length, length-append, some, ◌==◌,
  if◌then◌else◌, arith, Bool-cases, inl, inr, eq_of_some,
}
use dpdk_high_speed_flow_rou.Packet.{Mbuf}
use dpdk_high_speed_flow_rou.Tx.{addrs}
use dpdk_high_speed_flow_rou.Tx.Partial.{PoolApi, PoolLaws, occurs}

-- Empty mbufs at addresses from the next one on.
abbrev fresh : ℕ → ℕ → List Mbuf
fresh next zero = []
fresh next (suc n) =
    record { addr = next; nb_segs = 1; pkt_len = 0; data_len = 0; bytes = [] } ∷ fresh (next + 1) n

abbrev erase : ℕ → List ℕ → List ℕ
erase a [] = []
erase a (b ∷ bs) = if b == a then bs else b ∷ erase a bs

-- The next address, and the addresses in use.
abbrev pub list_pool : PoolApi
list_pool = record {
  Pool = ℕ × List ℕ;
  pool_create = λ n. some (0, []);
  alloc_bulk = λ p n. some (fresh p.0 n, (p.0 + n, addrs (fresh p.0 n) ++ p.1));
  mbuf_free = λ a p. (p.0, erase a p.1);
  in_use_count = λ p. length p.1;
}

length-fresh : (next n : ℕ) → length (fresh next n) ≡ n
length-fresh next zero = refl
length-fresh next (suc n) = omega (arith, length-fresh (next + 1) n)

length-addrs : (ms : List Mbuf) → length (addrs ms) ≡ length ms
length-addrs [] = refl
length-addrs (m ∷ ms) = omega (arith, length-addrs ms)

occurs-append : (a : ℕ) (xs ys : List ℕ) → occurs a (xs ++ ys) ≡ occurs a ys + occurs a xs
occurs-append a [] ys = omega arith
occurs-append a (x ∷ xs) ys = omega (arith, occurs-append a xs ys)

length-erase : (a : ℕ) (xs : List ℕ) → 1 ≤ occurs a xs → length (erase a xs) + 1 ≡ length xs
length-erase a [] h = absurd (omega arith)
length-erase a (x ∷ xs) h = elim (Bool-cases (x == a)) [
  | inl e ↦ rw e (omega arith)
  | inr e ↦ let rest = length-erase a xs (ground arith) in rw e (omega (arith, rest))
]

occurs-erase :
    (a b : ℕ) (xs : List ℕ)
    → 1 ≤ occurs a xs
    → occurs b (erase a xs) + (if a == b then 1 else 0) ≡ occurs b xs
occurs-erase a b [] h = absurd (omega arith)
occurs-erase a b (x ∷ xs) h = elim (Bool-cases (x == a)) [
  | inl e ↦ rw e (ground arith)
  | inr e ↦ let rest = occurs-erase a b xs (ground arith) in rw e (ground (arith, rest))
]

-- What an allocation adds to the pool.
abbrev Drawn : ℕ × List ℕ → ℕ → List Mbuf × (ℕ × List ℕ) → Type 0
Drawn p n (ms, q) =
    (length ms ≡ n)
    × (length q.1 ≡ length p.1 + n)
    × ((a : ℕ) → occurs a q.1 ≡ occurs a p.1 + occurs a (addrs ms))

fresh-Drawn :
    (p : ℕ × List ℕ) (n : ℕ) → Drawn p n (fresh p.0 n, (p.0 + n, addrs (fresh p.0 n) ++ p.1))
fresh-Drawn p n =
    let ms = fresh p.0 n in
    (
      length-fresh p.0 n,
      omega (arith, length-append (addrs ms) p.1, length-addrs ms, length-fresh p.0 n),
      λ a. occurs-append a (addrs ms) p.1,
    )

pub list_pool-PoolLaws : PoolLaws list_pool
list_pool-PoolLaws = record {
  held = λ p a. occurs a p.1;
  in_use-create = λ n p e. (ground arith, λ a. ground arith);
  in_use-alloc = λ p q n ms e. subst (Drawn p n) (eq_of_some e) (fresh-Drawn p n);
  in_use-free = λ p a h. (length-erase a p.1 h, λ b. occurs-erase a b p.1 h);
}
