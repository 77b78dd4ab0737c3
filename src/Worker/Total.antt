-- ===== src/Worker/Total.antt =====
-- dp_process_packet on a snapshot that was built: no packet leads to a fault.
use dpdk_high_speed_flow_rou.Prelude.{
  ℕ, ◌+◌, ◌^◌, ◌<◌, ◌≡◌, inl, inr, refl, ◌∙◌, ap, ◌⊎◌, >>=-eq-some, List, Option, none, some, arith,
  All, get_elem?, ◌>>=◌, Option-cases, none-ne_some, ℕ_discrete,
}
use dpdk_high_speed_flow_rou.Packet.{Meta, Mbuf, IsMbuf, ParseResult, ok, unsupported, malformed}
use dpdk_high_speed_flow_rou.Packet.Access.{be32, byte-lt}
use dpdk_high_speed_flow_rou.Parser.{parse_frame}
use dpdk_high_speed_flow_rou.Parser.Frame.{IsFlowFrame, Verdict, meta_of}
use dpdk_high_speed_flow_rou.Parser.Accept.{parse_frame-Judged}
use dpdk_high_speed_flow_rou.Rules.{Action, FlowRule, RouteRule}
use dpdk_high_speed_flow_rou.Tables.{TableApi, TableLaws}
use dpdk_high_speed_flow_rou.Snapshot.Types.{World, Grants, Snapshot, elements, slots}
use dpdk_high_speed_flow_rou.Snapshot.Build.{snapshot_build}
use dpdk_high_speed_flow_rou.Snapshot.Success.{Provided}
use dpdk_high_speed_flow_rou.Lookup.{LookupResult, flow_hit, route_hit, miss, lookup_packet}
use dpdk_high_speed_flow_rou.Lookup.Reference.{Choice}
use dpdk_high_speed_flow_rou.Lookup.Refine.{resolve}
use dpdk_high_speed_flow_rou.Lookup.Configured.{lookup_packet-snapshot_build}
use dpdk_high_speed_flow_rou.Action.{Checksums}
use dpdk_high_speed_flow_rou.Action.Total.{apply_to-Applied}
use dpdk_high_speed_flow_rou.Stats.{PacketStats}
use dpdk_high_speed_flow_rou.Worker.Balance.{IsBalanced, count, process_packet-IsBalanced}
use dpdk_high_speed_flow_rou.Worker.Ownership.{IsOwned, process_packet-IsOwned}
use dpdk_high_speed_flow_rou.Worker.{
  Processed, action_at, act, after_lookup, after_parse, process_packet,
}

-- What the parser gives: a flow frame with its fields, or a refusal.
abbrev Parsed : Mbuf → Option (ParseResult × Meta) → Type 0
Parsed m out =
    ((out ≡ some (ok, meta_of m.bytes)) × IsFlowFrame m.bytes)
    ⊎ (((meta : Meta) × (out ≡ some (unsupported, meta)))
        ⊎ ((meta : Meta) × (out ≡ some (malformed, meta))))

verdict-Parsed :
    (m : Mbuf) (r : ParseResult) (meta : Meta) (out : Option (ParseResult × Meta))
    → Verdict m.bytes r
    → (r ≡ ok → meta ≡ meta_of m.bytes)
    → out ≡ some (r, meta)
    → Parsed m out
verdict-Parsed m ok meta out (Verdict.flow f) fields e =
    inl (e ∙ ap (λ (x : Meta). some (ok, x)) (fields refl), f)
verdict-Parsed m unsupported meta out v fields e = inr (inl (meta, e))
verdict-Parsed m malformed meta out v fields e = inr (inr (meta, e))

parse_frame-Parsed : (m : Mbuf) (scratch : Meta) → IsMbuf m → Parsed m (parse_frame m scratch)
parse_frame-Parsed m scratch v = elim (ℕ_discrete m.nb_segs 1) [
  | no many ↦ inr (inl (scratch, unfold parse_frame in ground arith))
  | yes one ↦ elim (ℕ_discrete m.pkt_len m.data_len) [
    | no differ ↦ inr (inr (scratch, unfold parse_frame in ground arith))
    | yes same ↦
        let (r, meta, is, verdict, fields) = parse_frame-Judged m scratch v one same in
        verdict-Parsed m r meta _ verdict fields is
  ]
]

pub be32-lt : (d : List ℕ) (i : ℕ) → All (λ b. b < 256) d → be32 d i < 2 ^ 32
be32-lt d i o =
    omega (arith, byte-lt d i o, byte-lt d (i + 1) o, byte-lt d (i + 2) o, byte-lt d (i + 2 + 1) o)

-- The processing ends without a fault.
abbrev pub Ends : Option Processed → Type 0
Ends out = (p : Processed) × (out ≡ some p)

module _ (sums : Checksums) (m : Mbuf) where
  act-Ends :
      (a : Action) (s : PacketStats) → IsFlowFrame m.bytes → Ends (act sums a (meta_of m.bytes) m s)
  unfolding act
  act-Ends a s f =
      let (ret, m₁, is, kept, success) = apply_to-Applied sums m a f in
      elim (Option-cases (act sums a (meta_of m.bytes) m s)) [
        | inl stuck ↦ ground arith
        | inr (p, e) ↦ (p, e)
      ]

  module _ {api : TableApi} (t : Snapshot api) where
    after_lookup-Ends :
        (found : LookupResult × Option ℕ) (s : PacketStats) (c : Choice)
        → IsFlowFrame m.bytes
        → resolve (slots t.actions) found ≡ some c
        → Ends (after_lookup sums api (some t) found (meta_of m.bytes) m s)
    unfolding after_lookup action_at
    after_lookup-Ends (flow_hit, some i) s c f e =
        let (a, at, chosen) = >>=-eq-some (get_elem? (slots t.actions) i) _ e in
        rw at (act-Ends a _ f)
    after_lookup-Ends (route_hit, some i) s c f e =
        let (a, at, chosen) = >>=-eq-some (get_elem? (slots t.actions) i) _ e in
        rw at (act-Ends a _ f)
    after_lookup-Ends (flow_hit, none) s c f e = absurd (none-ne_some e)
    after_lookup-Ends (route_hit, none) s c f e = absurd (none-ne_some e)
    after_lookup-Ends (miss, slot) s c f e = (_, refl)

    after_parse-Ends :
        (out : Option (ParseResult × Meta)) (s : PacketStats)
        → ((meta : Meta)
            → meta.dst_ipv4 < 2 ^ 32
            → (c : Choice) × (resolve (slots t.actions) (lookup_packet api meta (some t)) ≡ some c))
        → All (λ b. b < 256) m.bytes
        → Parsed m out
        → Ends (out >>= λ parsed. after_parse sums api (some t) parsed m s)
    unfolding after_parse
    after_parse-Ends out s served octets (inl (e, f)) =
        let (c, chosen) = served (meta_of m.bytes) (be32-lt m.bytes 30 octets) in
        rw e (after_lookup-Ends (lookup_packet api (meta_of m.bytes) (some t)) _ c f chosen)
    after_parse-Ends out s served octets (inr (inl (meta, e))) = rw e (_, refl)
    after_parse-Ends out s served octets (inr (inr (meta, e))) = rw e (_, refl)

process_packet-Ends :
    {api : TableApi} (laws : TableLaws api) (g : Grants) (flows : Option (List FlowRule)) (n : ℕ)
    (routes : Option (List RouteRule)) (k generation : ℕ) (w : World) (t : Snapshot api)
    (sums : Checksums) (scratch : Meta) (m : Mbuf) (s : PacketStats)
    → Provided flows n
    → Provided routes k
    → All (λ r. r.prefix < 2 ^ 32) (elements routes k)
    → (snapshot_build api g flows n routes k generation w).result ≡ some t
    → IsMbuf m
    → Ends (process_packet sums api (some t) scratch m s)
unfolding process_packet
process_packet-Ends laws g flows n routes k generation w t sums scratch m s pf pr words built v =
    after_parse-Ends sums m t (parse_frame m scratch) s
      (λ meta ip. (
        _,
        lookup_packet-snapshot_build laws g flows n routes k generation w t meta pf pr words ip
            built,
      ))
      v.octets (parse_frame-Parsed m scratch v)

-- The packet has one owner, and the counters add up with one packet fewer that waits.
abbrev pub IsHandled : Mbuf → ℕ → ℕ → Option Processed → Type 0
IsHandled m waiting pending out =
    (p : Processed) × (out ≡ some p)
    × IsOwned m p
    × IsBalanced waiting (pending + count p.out) p.stats

-- On the snapshot of a successful build, over tables that keep the laws of DPDK, every packet is
-- processed to its end: no read or write leaves the segment, and no action is read outside of the
-- snapshot's array. The packet then goes on to TX or is freed once, and where the sums over the
-- counters held before, they hold after it.
pub process_packet-IsHandled :
    {api : TableApi} (laws : TableLaws api) (g : Grants) (flows : Option (List FlowRule)) (n : ℕ)
    (routes : Option (List RouteRule)) (k generation : ℕ) (w : World) (t : Snapshot api)
    (sums : Checksums) (scratch : Meta) (m : Mbuf) (s : PacketStats) (waiting pending : ℕ)
    → Provided flows n
    → Provided routes k
    → All (λ r. r.prefix < 2 ^ 32) (elements routes k)
    → (snapshot_build api g flows n routes k generation w).result ≡ some t
    → IsMbuf m
    → IsBalanced (waiting + 1) pending s
    → IsHandled m waiting pending (process_packet sums api (some t) scratch m s)
process_packet-IsHandled {api} laws g flows n routes k generation w t sums scratch m s waiting
      pending pf pr words built v h =
    let (p, e) =
      process_packet-Ends laws g flows n routes k generation w t sums scratch m s pf pr words built
        v in
    (
      p,
      e,
      process_packet-IsOwned sums api (some t) scratch m s p e,
      process_packet-IsBalanced waiting pending sums api (some t) scratch m s p h e,
    )
