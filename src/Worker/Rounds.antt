-- ===== src/Worker/Rounds.antt =====
-- A round of the worker's loop as a whole, and any number of them.
use mathlib.Core.Path.{subst}
use dpdk_high_speed_flow_rou.Prelude.{
  ℕ, ◌+◌, ◌≤◌, ◌≡◌, refl, sym, ap, ◌∙◌, List, [], Option, some, arith, length, length-eq-zero, take,
  length-take, All, ◌>>=◌, >>=-eq-some, eq_of_some, ◌==◌, Bool-cases, inl, inr,
}
use dpdk_high_speed_flow_rou.Packet.{Meta, Mbuf, IsMbuf}
use dpdk_high_speed_flow_rou.Tables.{TableApi, TableLaws}
use dpdk_high_speed_flow_rou.Snapshot.Types.{Snapshot}
use dpdk_high_speed_flow_rou.Action.{Checksums}
use dpdk_high_speed_flow_rou.Stats.{PacketStats, add64}
use dpdk_high_speed_flow_rou.Tx.{addrs, complete_tx}
use dpdk_high_speed_flow_rou.Tx.Complete.{complete_tx-IsBalanced}
use dpdk_high_speed_flow_rou.Worker.Balance.{IsBalanced}
use dpdk_high_speed_flow_rou.Worker.Burst.{Burst, sweep, outcome, sweep-handle_all}
use dpdk_high_speed_flow_rou.Worker.Poll.{Round, Polled, transmit, poll}
use dpdk_high_speed_flow_rou.Worker.Settled.{
  IsBuilt, occurrences, occurrences-append, handle_all-Handled, sweep-bounded,
}

transmit-settled :
    (sent : ℕ → ℕ) (b : Burst)
    → sent b.tx_count ≤ b.tx_count
    → IsBalanced 0 b.tx_count b.stats
    → IsBalanced 0 0 (transmit sent b).stats
      × ((a : ℕ)
          → occurrences a (transmit sent b).accepted + occurrences a (transmit sent b).freed
            ≡ occurrences a (addrs (take b.tx_count b.pkts)) + occurrences a b.freed)
unfolding transmit
transmit-settled sent b fits h = elim (Bool-cases (b.tx_count == 0)) [
  | inl idle ↦
      let nothing : b.tx_count ≡ 0 = ground arith in
      rw (idle, nothing) (subst (λ (n : ℕ). IsBalanced 0 n b.stats) nothing h, λ a. refl)
  | inr busy ↦
      let started = record b.stats { tx_bursts = add64 b.stats.tx_bursts 1 } in
      let (balanced, owned) =
        complete_tx-IsBalanced b.pkts b.tx_count (sent b.tx_count) 0 0 started fits
          (omega (arith, h)) in
      let unsent = (complete_tx b.pkts b.tx_count (sent b.tx_count) started).1 in
      rw busy (
        balanced,
        λ a. omega (
          arith,
          ap (occurrences a) owned,
          occurrences-append a (addrs (take (sent b.tx_count) b.pkts)) unsent,
          occurrences-append a b.freed unsent,
        ),
      )
]

-- What a round meets that goes as it should: sound packets, a snapshot that was built, and a driver
-- that takes no more packets than it is given.
pub record IsFair {api : TableApi} (r : Round api) : Type 0 where
  pub packets : All IsMbuf r.pkts
  pub rules : (t : Snapshot api) × (r.snapshot ≡ some t) × IsBuilt t
  pub taken : (n : ℕ) → r.sent n ≤ n

-- Each of the packets was taken by the driver or freed, once; the sums over the counters hold, with
-- none pending.
abbrev pub IsSettled : List ℕ → Option Polled → Type 0
IsSettled arrived out =
    (q : Polled) × (out ≡ some q)
    × IsBalanced 0 0 q.stats
    × ((a : ℕ) → occurrences a q.accepted + occurrences a q.freed ≡ occurrences a arrived)

module _ (sums : Checksums) {api : TableApi} (laws : TableLaws api) (scratch : Meta) where
  poll-busy :
      (pkts : List Mbuf) (t : Snapshot api) (built : IsBuilt t) (sent : ℕ → ℕ) (s : PacketStats)
      → All IsMbuf pkts
      → ((n : ℕ) → sent n ≤ n)
      → IsBalanced (length pkts) 0 s
      → IsSettled (addrs pkts) (
          sweep sums api
            (some t)
            scratch
            (length pkts)
            0
            (record { pkts = pkts; tx_count = 0; stats = s; freed = [] })
          >>= λ b. some (transmit sent b))
  poll-busy pkts t built sent s v fits h =
      let start : Burst = record { pkts = pkts; tx_count = 0; stats = s; freed = [] } in
      let (r, handled, balanced, counts) =
        handle_all-Handled sums laws t built scratch pkts [] s [] v h in
      let (b, swept, is) =
        >>=-eq-some (sweep sums api (some t) scratch (length pkts) 0 start) outcome
          (sweep-handle_all sums api (some t) scratch pkts s ∙ handled) in
      let same = eq_of_some is in
      let (bound, size) =
        sweep-bounded sums laws t built scratch (length pkts) 0 start b (omega arith) (omega arith)
          swept in
      let many : length (take b.tx_count b.pkts) ≡ b.tx_count =
        omega (arith, length-take b.tx_count b.pkts) in
      let pending : IsBalanced 0 b.tx_count b.stats =
        subst (λ (n : ℕ). IsBalanced 0 n b.stats) many
          (subst (λ (o : List Mbuf × (PacketStats × List ℕ)). IsBalanced 0 (length o.0) o.1.0)
            (sym same) balanced) in
      let (settled, owners) = transmit-settled sent b (fits b.tx_count) pending in
      rw swept (
        transmit sent b,
        refl,
        settled,
        λ a. omega (
          arith,
          owners a,
          counts a,
          ap (λ (o : List Mbuf × (PacketStats × List ℕ)). occurrences a (addrs o.0)) same,
          ap (λ (o : List Mbuf × (PacketStats × List ℕ)). occurrences a o.1.1) same,
        ),
      )

  -- On a snapshot that was built, with sound packets and a driver that takes no more than it is given,
  -- a round of the loop ends without a fault, whether it received packets or none. Every packet
  -- received was then taken by the driver or freed, exactly once, and the sums over the counters hold
  -- again with no packet pending.
  pub poll-IsSettled :
      (r : Round api) (s : PacketStats)
      → IsFair r
      → IsBalanced 0 0 s
      → IsSettled (addrs r.pkts) (poll sums api scratch r s)
  unfolding poll
  poll-IsSettled r s f h =
      let (t, active, built) = f.rules in
      let counted = record s { rx_bursts = add64 s.rx_bursts 1 } in
      elim (Bool-cases (length r.pkts == 0)) [
        | inl empty ↦
            let none_came = length-eq-zero r.pkts (ground arith) in
            rw empty (
              _,
              refl,
              omega (arith, h),
              λ a. ap (λ (l : List Mbuf). occurrences a (addrs l)) (sym none_came),
            )
        | inr some_came ↦
            rw (some_came, active)
              (poll-busy r.pkts t built r.sent
                (record counted { rx = add64 counted.rx (length r.pkts) }) f.packets f.taken
                (omega (arith, h)))
      ]
