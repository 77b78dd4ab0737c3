-- ===== src/Worker/Balance.antt =====
-- The counters of `struct dp_packet_stats` add up, packet by packet.
use dpdk_high_speed_flow_rou.Prelude.{
  ℕ, ◌+◌, ◌≡◌, Option, none, some, arith, u64, >>=-eq-some, eq_of_some,
}
use dpdk_high_speed_flow_rou.Packet.{Meta, Mbuf, ParseResult, ok, unsupported, malformed}
use dpdk_high_speed_flow_rou.Parser.{parse_frame}
use dpdk_high_speed_flow_rou.Rules.{Action}
use dpdk_high_speed_flow_rou.Tables.{TableApi}
use dpdk_high_speed_flow_rou.Snapshot.Types.{Snapshot}
use dpdk_high_speed_flow_rou.Lookup.{LookupResult, flow_hit, route_hit, miss, lookup_packet}
use dpdk_high_speed_flow_rou.Action.{Checksums}
use dpdk_high_speed_flow_rou.Stats.{PacketStats, add64}
use dpdk_high_speed_flow_rou.Worker.{
  Processed, drop_by_action, action_at, act, after_lookup, after_parse, process_packet,
}

-- The sums that the counters keep, modulo 2^64, while `waiting` packets of a burst are not yet
-- processed and `pending` ones wait for TX.
pub record IsBalanced (waiting pending : ℕ) (s : PacketStats) : Type 0 where
  pub received : u64 s.rx ≡ u64 (s.parse_ok + s.parse_unsupported + s.parse_malformed + waiting)
  pub looked_up : u64 s.parse_ok ≡ u64 (s.flow_hit + s.route_hit + s.lookup_miss)
  pub acted : u64 s.parse_ok ≡ u64 (s.action_drop + s.action_forward + s.action_rewrite)
  pub sent : u64 (s.action_forward + s.action_rewrite) ≡ u64 (s.tx_accepted + s.tx_unsent + pending)
  pub lost :
      u64 s.drop ≡ u64 (s.parse_unsupported + s.parse_malformed + s.action_drop + s.tx_unsent)

abbrev pub count : Option Mbuf → ℕ
count none = 0
count (some m) = 1

-- The same in the middle of a packet: it is parsed and looked up, and not yet acted on.
record IsHalfway (waiting pending : ℕ) (s : PacketStats) : Type 0 where
  received : u64 s.rx ≡ u64 (s.parse_ok + s.parse_unsupported + s.parse_malformed + waiting)
  looked_up : u64 s.parse_ok ≡ u64 (s.flow_hit + s.route_hit + s.lookup_miss)
  acted : u64 s.parse_ok ≡ u64 (s.action_drop + s.action_forward + s.action_rewrite + 1)
  sent : u64 (s.action_forward + s.action_rewrite) ≡ u64 (s.tx_accepted + s.tx_unsent + pending)
  lost : u64 s.drop ≡ u64 (s.parse_unsupported + s.parse_malformed + s.action_drop + s.tx_unsent)

module _ (waiting pending : ℕ) (s : PacketStats) where
  -- The three ways in which an action counts.
  drop-IsBalanced :
      IsHalfway waiting pending s
      → (m : Mbuf) → IsBalanced waiting pending (drop_by_action m s).stats
  drop-IsBalanced h m = omega arith

  forward-IsBalanced :
      IsHalfway waiting pending s
      → IsBalanced waiting (pending + 1) (record s { action_forward = add64 s.action_forward 1 })
  forward-IsBalanced h = omega arith

  rewrite-IsBalanced :
      IsHalfway waiting pending s
      → IsBalanced waiting (pending + 1) (record s { action_rewrite = add64 s.action_rewrite 1 })
  rewrite-IsBalanced h = omega arith

  none-IsBalanced : IsBalanced waiting pending s → IsBalanced waiting (pending + 0) s
  none-IsBalanced h = omega arith

abbrev After : ℕ → ℕ → Processed → Type 0
After waiting pending p = IsBalanced waiting (pending + count p.out) p.stats

module _ (waiting pending : ℕ) where
  act-IsBalanced :
      (sums : Checksums) (a : Action) (meta : Meta) (m : Mbuf) (s : PacketStats) (p : Processed)
      → IsHalfway waiting pending s
      → act sums a meta m s ≡ some p
      → After waiting pending p
  unfolding act
  act-IsBalanced sums a meta m s p h e = ground (
    arith,
    none-IsBalanced waiting pending (drop_by_action m s).stats
        (drop-IsBalanced waiting pending s h m),
    forward-IsBalanced waiting pending s h,
    rewrite-IsBalanced waiting pending s h,
  )

  drop-After :
      (m : Mbuf) (s : PacketStats) (p : Processed)
      → IsHalfway waiting pending s
      → drop_by_action m s ≡ p
      → After waiting pending p
  drop-After m s p h e = ground (
    arith,
    none-IsBalanced waiting pending (drop_by_action m s).stats
        (drop-IsBalanced waiting pending s h m),
  )

  module _ (sums : Checksums) (api : TableApi) (snapshot : Option (Snapshot api)) where
    after_lookup-IsBalanced :
        (found : LookupResult × Option ℕ) (meta : Meta) (m : Mbuf) (s : PacketStats) (p : Processed)
        → IsBalanced (waiting + 1) pending s
        → after_lookup sums api snapshot found meta m (record s { parse_ok = add64 s.parse_ok 1 })
          ≡ some p
        → After waiting pending p
    unfolding after_lookup
    after_lookup-IsBalanced (flow_hit, slot) meta m s p h e =
        let (a, at, e₁) = >>=-eq-some (action_at snapshot slot) _ e in
        act-IsBalanced sums a meta m _ p (omega arith) e₁
    after_lookup-IsBalanced (route_hit, slot) meta m s p h e =
        let (a, at, e₁) = >>=-eq-some (action_at snapshot slot) _ e in
        act-IsBalanced sums a meta m _ p (omega arith) e₁
    after_lookup-IsBalanced (miss, slot) meta m s p h e =
        drop-After m _ p (omega arith) (eq_of_some e)

    -- A packet that is processed keeps the sums: one packet fewer waits, and one more is pending where
    -- the packet goes on to TX.
    pub process_packet-IsBalanced :
        (scratch : Meta) (m : Mbuf) (s : PacketStats) (p : Processed)
        → IsBalanced (waiting + 1) pending s
        → process_packet sums api snapshot scratch m s ≡ some p
        → IsBalanced waiting (pending + count p.out) p.stats
    unfolding process_packet
    process_packet-IsBalanced scratch m s p h e =
        let (parsed, at, e₁) = >>=-eq-some (parse_frame m scratch) _ e in judged parsed e₁
      where
        judged :
            (parsed : ParseResult × Meta)
            → after_parse sums api snapshot parsed m s ≡ some p
            → After waiting pending p
        judged (ok, meta) e₁ =
            after_lookup-IsBalanced (lookup_packet api meta snapshot) meta m s p h e₁
        judged (unsupported, meta) e₁ = ground (arith, eq_of_some e₁)
        judged (malformed, meta) e₁ = ground (arith, eq_of_some e₁)
