-- ===== src/Worker/Settled.antt =====
-- What a round of the loop comes to: no fault, no packet pending, each packet with one owner.
use mathlib.Core.Path.{subst}
use dpdk_high_speed_flow_rou.Prelude.{
  ℕ, zero, suc, ◌+◌, ◌^◌, ◌≤◌, ◌<◌, ◌≡◌, refl, sym, ap, ◌∙◌, List, [], ◌∷◌, ◌++◌, Option, none,
  some, arith, length, length-append, length-set, All, get_elem?, >>=-eq-some, eq_of_some, ◌⊎◌,
  ◌==◌, if◌then◌else◌, inl, inr,
}
use dpdk_high_speed_flow_rou.Packet.{Meta, Mbuf, IsMbuf}
use dpdk_high_speed_flow_rou.Rules.{FlowRule, RouteRule}
use dpdk_high_speed_flow_rou.Tables.{TableApi, TableLaws}
use dpdk_high_speed_flow_rou.Snapshot.Types.{World, Grants, Snapshot, elements}
use dpdk_high_speed_flow_rou.Snapshot.Build.{snapshot_build}
use dpdk_high_speed_flow_rou.Snapshot.Success.{Provided}
use dpdk_high_speed_flow_rou.Action.{Checksums}
use dpdk_high_speed_flow_rou.Stats.{PacketStats}
use dpdk_high_speed_flow_rou.Tx.{addrs}
use dpdk_high_speed_flow_rou.Worker.{process_packet}
use dpdk_high_speed_flow_rou.Worker.Balance.{IsBalanced, count}
use dpdk_high_speed_flow_rou.Worker.Total.{process_packet-IsHandled}
use dpdk_high_speed_flow_rou.Worker.Burst.{Burst, collect, sweep, to_list, handle_all}

-- A snapshot that came out of a build of arrays of the given lengths.
pub record IsBuilt {api : TableApi} (t : Snapshot api) : Type 0 where
  pub grants : Grants
  pub flows : Option (List FlowRule)
  pub flow_count : ℕ
  pub routes : Option (List RouteRule)
  pub route_count : ℕ
  pub generation : ℕ
  pub world : World
  pub flows_there : Provided flows flow_count
  pub routes_there : Provided routes route_count
  pub words : All (λ r. r.prefix < 2 ^ 32) (elements routes route_count)
  pub built :
      (snapshot_build api grants flows flow_count routes route_count generation world).result
      ≡ some t

-- How often an address stands in a list.
abbrev pub occurrences : ℕ → List ℕ → ℕ
occurrences a [] = 0
occurrences a (x ∷ xs) = (if x == a then 1 else 0) + occurrences a xs

pub occurrences-append :
    (a : ℕ) (xs ys : List ℕ) → occurrences a (xs ++ ys) ≡ occurrences a xs + occurrences a ys
occurrences-append a [] ys = omega arith
occurrences-append a (x ∷ xs) ys = omega (arith, occurrences-append a xs ys)

addrs-append : (xs ys : List Mbuf) → addrs (xs ++ ys) ≡ addrs xs ++ addrs ys
addrs-append [] ys = refl
addrs-append (m ∷ xs) ys = ap (λ (l : List ℕ). m.addr ∷ l) (addrs-append xs ys)

occurrences-addrs :
    (a : ℕ) (xs ys : List Mbuf)
    → occurrences a (addrs (xs ++ ys)) ≡ occurrences a (addrs xs) + occurrences a (addrs ys)
occurrences-addrs a xs ys = rw (addrs-append xs ys) (occurrences-append a (addrs xs) (addrs ys))

length-to_list : (o : Option Mbuf) → length (to_list o) ≡ count o
length-to_list none = refl
length-to_list (some m) = refl

occurrences-owned :
    (a : ℕ) (m : Mbuf) (out : Option Mbuf) (freed : List ℕ)
    → ((out ≡ none) × (freed ≡ m.addr ∷ []))
      ⊎ ((m₁ : Mbuf) × (out ≡ some m₁) × (freed ≡ []) × (m₁.addr ≡ m.addr))
    → occurrences a (addrs (to_list out)) + occurrences a freed ≡ occurrences a (m.addr ∷ [])
occurrences-owned a m out freed (inl (gone, is)) = rw (gone, is) (omega arith)
occurrences-owned a m out freed (inr (m₁, on, is, same)) = rw (on, is, same) (omega arith)

collect-bounded :
    (o : Option Mbuf) (b : Burst)
    → ((collect o b).tx_count ≤ suc b.tx_count) × (length (collect o b).pkts ≡ length b.pkts)
unfolding collect
collect-bounded none b = (omega arith, refl)
collect-bounded (some m) b = (omega arith, length-set b.pkts b.tx_count m)

module _ (sums : Checksums) {api : TableApi} (laws : TableLaws api) (t : Snapshot api)
    (b : IsBuilt t) (scratch : Meta) where
  -- The loop with a list of its own: it ends, its counters add up, and it loses no packet.
  abbrev pub Handled :
      List Mbuf → List Mbuf → List ℕ → Option (List Mbuf × (PacketStats × List ℕ)) → Type 0
  Handled ms out freed result =
      (r : List Mbuf × (PacketStats × List ℕ)) × (result ≡ some r)
      × IsBalanced 0 (length r.0) r.1.0
      × ((a : ℕ)
          → occurrences a (addrs r.0) + occurrences a r.1.1
            ≡ occurrences a (addrs out) + occurrences a freed + occurrences a (addrs ms))

  pub handle_all-Handled :
      (ms out : List Mbuf) (s : PacketStats) (freed : List ℕ)
      → All IsMbuf ms
      → IsBalanced (length ms) (length out) s
      → Handled ms out freed (handle_all sums api (some t) scratch ms out s freed)
  handle_all-Handled [] out s freed v h = ((out, (s, freed)), refl, h, λ a. omega arith)
  handle_all-Handled (m ∷ ms) out s freed v h =
      let (p, e, owned, kept) =
        process_packet-IsHandled laws b.grants b.flows b.flow_count b.routes b.route_count
          b.generation b.world t sums scratch m s (length ms) (length out) b.flows_there
          b.routes_there b.words b.built v.0 (omega (arith, h)) in
      let longer : length (out ++ to_list p.out) ≡ length out + count p.out =
        omega (arith, length-append out (to_list p.out), length-to_list p.out) in
      let (r, is, balanced, counts) =
        handle_all-Handled ms (out ++ to_list p.out) p.stats (freed ++ p.freed) v.1
          (subst (λ (n : ℕ). IsBalanced (length ms) n p.stats) (sym longer) kept) in
      (
        r,
        rw e is,
        balanced,
        λ a. omega (
          arith,
          counts a,
          occurrences-addrs a out (to_list p.out),
          occurrences-append a freed p.freed,
          occurrences-owned a m p.out p.freed owned,
        ),
      )

  -- The write index never passes the read index.
  pub sweep-bounded :
      (rounds i : ℕ) (before after : Burst)
      → before.tx_count ≤ i
      → i + rounds ≤ length before.pkts
      → sweep sums api (some t) scratch rounds i before ≡ some after
      → (after.tx_count ≤ i + rounds) × (length after.pkts ≡ length before.pkts)
  unfolding sweep
  sweep-bounded zero i before after low room e = ground (arith, eq_of_some e)
  sweep-bounded (suc rounds) i before after low room e =
      let (m, at, e₁) = >>=-eq-some (get_elem? before.pkts i) _ e in
      let (p, is, e₂) =
        >>=-eq-some (process_packet sums api (some t) scratch m before.stats) _ e₁ in
      let mid : Burst = record before { stats = p.stats; freed = before.freed ++ p.freed } in
      let (grown, same) = collect-bounded p.out mid in
      let (last, kept) =
        sweep-bounded rounds (suc i) (collect p.out mid) after (omega (arith, grown))
          (omega (arith, same)) e₂ in
      (omega (arith, last), kept ∙ same)
