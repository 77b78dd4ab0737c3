-- ===== src/Worker/Burst.antt =====
-- The packet loop of `dp_worker_run` in dataplane/native/dp_worker.c, which reuses the array of the
-- received packets for the ones that go on to TX.
use dpdk_high_speed_flow_rou.Prelude.{
  ℕ, zero, suc, ◌≤◌, ◌<◌, ◌≡◌, refl, sym, ap, ◌∙◌, List, [], ◌∷◌, ◌++◌, Option, none, some, arith,
  length, get_elem?, set, take, drop, ◌>>=◌, Option-cases, inl, inr,
}
use dpdk_high_speed_flow_rou.Packet.{Meta, Mbuf}
use dpdk_high_speed_flow_rou.Tables.{TableApi}
use dpdk_high_speed_flow_rou.Snapshot.Types.{Snapshot}
use dpdk_high_speed_flow_rou.Action.{Checksums}
use dpdk_high_speed_flow_rou.Stats.{PacketStats}
use dpdk_high_speed_flow_rou.Worker.{process_packet}

-- The array `pkts`, the number of its first packets that go on, the counters, what was freed. A burst
-- has at most 32 packets, so that the uint16_t `tx_count` does not wrap.
pub record Burst : Type 0 where
  pub pkts : List Mbuf
  pub tx_count : ℕ
  pub stats : PacketStats
  pub freed : List ℕ

-- `if (candidate) pkts[tx_count++] = candidate;`
unfoldable pub collect : Option Mbuf → Burst → Burst
collect none b = b
collect (some m) b = record b { pkts = set b.pkts b.tx_count m; tx_count = suc b.tx_count }

abbrev pub to_list : Option Mbuf → List Mbuf
to_list none = []
to_list (some m) = m ∷ []

-- What is left of a burst: the packets that go on, the counters, and what was freed.
abbrev pub outcome : Burst → Option (List Mbuf × (PacketStats × List ℕ))
outcome b = some (take b.tx_count b.pkts, (b.stats, b.freed))

drop-get :
    (i : ℕ) (xs : List Mbuf) (m : Mbuf) (ms : List Mbuf)
    → drop i xs ≡ m ∷ ms
    → (get_elem? xs i ≡ some m) × (drop (suc i) xs ≡ ms) × (i < length xs)
drop-get zero [] m ms e = absurd (cc)
drop-get zero (x ∷ xs) m ms e = (cc, cc, omega arith)
drop-get (suc i) [] m ms e = absurd (cc)
drop-get (suc i) (x ∷ xs) m ms e =
    let (at, rest, lt) = drop-get i xs m ms e in (at, rest, omega (arith, lt))

drop-set : (t i : ℕ) (xs : List Mbuf) (m : Mbuf) → t < i → drop i (set xs t m) ≡ drop i xs
drop-set t zero xs m h = absurd (omega arith)
drop-set t (suc i) [] m h = refl
drop-set zero (suc i) (x ∷ xs) m h = refl
drop-set (suc t) (suc i) (x ∷ xs) m h = drop-set t i xs m (omega arith)

take-set :
    (t : ℕ) (xs : List Mbuf) (m : Mbuf)
    → t < length xs
    → take (suc t) (set xs t m) ≡ take t xs ++ m ∷ []
take-set t [] m h = absurd (omega arith)
take-set zero (x ∷ xs) m h = refl
take-set (suc t) (x ∷ xs) m h = ap (λ (l : List Mbuf). x ∷ l) (take-set t xs m (omega arith))

append-nil : (xs : List Mbuf) → xs ++ [] ≡ xs
append-nil [] = refl
append-nil (x ∷ xs) = ap (λ (l : List Mbuf). x ∷ l) (append-nil xs)

collect-frame :
    (out : Option Mbuf) (b : Burst) (i : ℕ)
    → b.tx_count ≤ i
    → i < length b.pkts
    → (drop (suc i) (collect out b).pkts ≡ drop (suc i) b.pkts)
      × (take (collect out b).tx_count (collect out b).pkts ≡ take b.tx_count b.pkts ++ to_list out)
      × ((collect out b).tx_count ≤ suc i)
      × ((collect out b).stats ≡ b.stats)
      × ((collect out b).freed ≡ b.freed)
unfolding collect
collect-frame none b i h l =
    (refl, sym (append-nil (take b.tx_count b.pkts)), omega arith, refl, refl)
collect-frame (some m) b i h l = (
  drop-set b.tx_count (suc i) b.pkts m (omega arith),
  take-set b.tx_count b.pkts m (omega arith),
  omega arith,
  refl,
  refl,
)

module _ (sums : Checksums) (api : TableApi) (snapshot : Option (Snapshot api))
    (scratch : Meta) where
  -- `rounds` rounds of the loop, from index `i` on.
  unfoldable pub sweep : ℕ → ℕ → Burst → Option Burst
  sweep zero i b = some b
  sweep (suc rounds) i b = do
    m ← get_elem? b.pkts i
    p ← process_packet sums api snapshot scratch m b.stats
    sweep rounds (suc i) (collect p.out (record b { stats = p.stats; freed = b.freed ++ p.freed }))

  -- The same without reuse: the packets that go on are collected in a list of their own.
  abbrev pub handle_all :
      List Mbuf → List Mbuf → PacketStats → List ℕ → Option (List Mbuf × (PacketStats × List ℕ))
  handle_all [] out s freed = some (out, (s, freed))
  handle_all (m ∷ ms) out s freed = do
    p ← process_packet sums api snapshot scratch m s
    handle_all ms (out ++ to_list p.out) p.stats (freed ++ p.freed)

  sweep-from :
      (ms : List Mbuf) (i : ℕ) (b : Burst)
      → drop i b.pkts ≡ ms
      → b.tx_count ≤ i
      → (sweep (length ms) i b >>= outcome) ≡ handle_all ms (take b.tx_count b.pkts) b.stats b.freed
  unfolding sweep
  sweep-from [] i b e h = refl
  sweep-from (m ∷ ms) i b e h =
      let (at, rest, l) = drop-get i b.pkts m ms e in
      elim (Option-cases (process_packet sums api snapshot scratch m b.stats)) [
        | inl stuck ↦ rw (at, stuck) refl
        | inr (p, is) ↦
            let b₁ : Burst = record b { stats = p.stats; freed = b.freed ++ p.freed } in
            let (behind, front, bound, same, gone) = collect-frame p.out b₁ i h l in
            let rest_of = sweep-from ms (suc i) (collect p.out b₁) (behind ∙ rest) bound in
            simp (at, is) (simp (front, same, gone) at rest_of)
      ]

  -- The loop over a burst, which writes the packets that go on over the ones that it has read, gives
  -- what a loop with an array of its own gives: the same packets in the same order, the same counters,
  -- the same packets freed, and a fault in the same case.
  pub sweep-handle_all :
      (pkts : List Mbuf) (s : PacketStats)
      → (sweep (length pkts) 0 (record { pkts = pkts; tx_count = 0; stats = s; freed = [] })
          >>= outcome)
        ≡ handle_all pkts [] s []
  sweep-handle_all pkts s =
      sweep-from pkts 0 (record { pkts = pkts; tx_count = 0; stats = s; freed = [] }) refl
        (omega arith)
