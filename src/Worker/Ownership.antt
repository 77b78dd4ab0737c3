-- ===== src/Worker/Ownership.antt =====
-- Who owns a packet after `dp_process_packet`.
use dpdk_high_speed_flow_rou.Prelude.{
  ℕ, ◌≡◌, ◌⊎◌, inl, inr, [], ◌∷◌, Option, none, some, arith, >>=-eq-some, eq_of_some, Option-cases,
  ℤ,
}
use dpdk_high_speed_flow_rou.Packet.{Meta, Mbuf, ParseResult, ok, unsupported, malformed}
use dpdk_high_speed_flow_rou.Parser.{parse_frame}
use dpdk_high_speed_flow_rou.Rules.{Action}
use dpdk_high_speed_flow_rou.Tables.{TableApi}
use dpdk_high_speed_flow_rou.Snapshot.Types.{Snapshot}
use dpdk_high_speed_flow_rou.Lookup.{LookupResult, flow_hit, route_hit, miss, lookup_packet}
use dpdk_high_speed_flow_rou.Action.{Checksums, apply_to}
use dpdk_high_speed_flow_rou.Stats.{PacketStats}
use dpdk_high_speed_flow_rou.Worker.{
  Processed, action_at, act, after_lookup, after_parse, process_packet,
}

-- A packet goes on or is freed, never both, and it stays the packet that came in.
abbrev pub IsOwned : Mbuf → Processed → Type 0
IsOwned m p =
    ((p.out ≡ none) × (p.freed ≡ m.addr ∷ []))
    ⊎ ((m₁ : Mbuf) × (p.out ≡ some m₁) × (p.freed ≡ []) × (m₁.addr ≡ m.addr))

-- The action leaves the packet's address alone.
apply_to-addr :
    (sums : Checksums) (m m₁ : Mbuf) (meta : Meta) (a : Action) (ret : ℤ)
    → apply_to sums m meta a ≡ some (ret, m₁)
    → m₁.addr ≡ m.addr
unfolding apply_to
apply_to-addr sums m m₁ meta a ret h = ground arith

act-IsOwned :
    (sums : Checksums) (a : Action) (meta : Meta) (m : Mbuf) (stats : PacketStats) (p : Processed)
    → act sums a meta m stats ≡ some p
    → IsOwned m p
unfolding act
act-IsOwned sums a meta m stats p h = elim (Option-cases (apply_to sums m meta a)) [
  | inl e ↦ ground arith
  | inr ((ret, m₁), e) ↦ ground (arith, apply_to-addr sums m m₁ meta a ret e)
]

after_lookup-IsOwned :
    (sums : Checksums) (api : TableApi) (snapshot : Option (Snapshot api))
    (found : LookupResult × Option ℕ) (meta : Meta) (m : Mbuf) (s : PacketStats) (p : Processed)
    → after_lookup sums api snapshot found meta m s ≡ some p
    → IsOwned m p
unfolding after_lookup
after_lookup-IsOwned sums api snapshot (flow_hit, slot) meta m s p e =
    let (a, at, e₁) = >>=-eq-some (action_at snapshot slot) _ e in act-IsOwned sums a meta m _ p e₁
after_lookup-IsOwned sums api snapshot (route_hit, slot) meta m s p e =
    let (a, at, e₁) = >>=-eq-some (action_at snapshot slot) _ e in act-IsOwned sums a meta m _ p e₁
after_lookup-IsOwned sums api snapshot (miss, slot) meta m s p e = ground (arith, eq_of_some e)

-- A processed packet either goes on to TX, with nothing freed, or is freed once and does not go on.
pub process_packet-IsOwned :
    (sums : Checksums) (api : TableApi) (snapshot : Option (Snapshot api)) (scratch : Meta)
    (m : Mbuf) (s : PacketStats) (p : Processed)
    → process_packet sums api snapshot scratch m s ≡ some p
    → IsOwned m p
unfolding process_packet
process_packet-IsOwned sums api snapshot scratch m s p e =
    let (parsed, at, e₁) = >>=-eq-some (parse_frame m scratch) _ e in judged parsed e₁
  where
    judged :
        (parsed : ParseResult × Meta)
        → after_parse sums api snapshot parsed m s ≡ some p
        → IsOwned m p
    judged (ok, meta) e₁ =
        after_lookup-IsOwned sums api snapshot (lookup_packet api meta snapshot) meta m _ p e₁
    judged (unsupported, meta) e₁ = ground (arith, eq_of_some e₁)
    judged (malformed, meta) e₁ = ground (arith, eq_of_some e₁)
