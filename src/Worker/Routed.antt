-- ===== src/Worker/Routed.antt =====
-- What dp_process_packet makes of a packet, said of the configured rules and of the bytes.
use dpdk_high_speed_flow_rou.Prelude.{
  ℕ, ◌^◌, ◌<◌, ◌≡◌, ◌≢◌, ◌⊎◌, inl, inr, refl, ◌∙◌, ap, >>=-eq-some, List, Option, none, some, arith,
  All, get_elem?, none-ne_some, ℕ_discrete, ℤ, pos, is_zero, if◌then◌else◌,
}
use dpdk_high_speed_flow_rou.Packet.{Meta, Mbuf, IsMbuf, ParseResult, ok, unsupported, malformed}
use dpdk_high_speed_flow_rou.Parser.{parse_frame}
use dpdk_high_speed_flow_rou.Parser.Frame.{IsFlowFrame, Verdict, meta_of}
use dpdk_high_speed_flow_rou.Parser.Accept.{parse_frame-Judged}
use dpdk_high_speed_flow_rou.Rules.{
  Action, FlowRule, RouteRule, validate_action, action_drop, action_forward, action_rewrite,
}
use dpdk_high_speed_flow_rou.Tables.{TableApi, TableLaws}
use dpdk_high_speed_flow_rou.Snapshot.Types.{World, Grants, Snapshot, elements, slots}
use dpdk_high_speed_flow_rou.Snapshot.Valid.{IsFlowRule, IsRouteRule}
use dpdk_high_speed_flow_rou.Snapshot.Admitted.{snapshot_build-IsFlowRule}
use dpdk_high_speed_flow_rou.Lookup.Chosen.{valid_kinds, reference_valid}
use dpdk_high_speed_flow_rou.Snapshot.Build.{snapshot_build}
use dpdk_high_speed_flow_rou.Snapshot.Success.{Provided}
use dpdk_high_speed_flow_rou.Lookup.{LookupResult, flow_hit, route_hit, miss, lookup_packet}
use dpdk_high_speed_flow_rou.Lookup.Reference.{flow_action, route_action, no_rule, reference}
use dpdk_high_speed_flow_rou.Lookup.Refine.{resolve}
use dpdk_high_speed_flow_rou.Lookup.Configured.{lookup_packet-snapshot_build}
use dpdk_high_speed_flow_rou.Action.{Checksums, apply_to}
use dpdk_high_speed_flow_rou.Action.Reparse.{Verdict-ok, IsRewritten, apply_to-IsRewritten}
use dpdk_high_speed_flow_rou.Stats.{PacketStats, add64}
use dpdk_high_speed_flow_rou.Worker.Total.{be32-lt}
use dpdk_high_speed_flow_rou.Worker.{
  Processed, passed, drop_by_action, action_at, act, after_lookup, after_parse, process_packet,
}

-- An acceptable frame, in one segment that is the whole packet.
pub record IsAcceptable (m : Mbuf) : Type 0 where
  pub one : m.nb_segs ≡ 1
  pub whole : m.pkt_len ≡ m.data_len
  pub flow : IsFlowFrame m.bytes

-- What an action makes of an acceptable packet.
pub data Carried (a : Action) (m : Mbuf) : Option Mbuf → Type 0 where
  forwarded : a.type ≡ action_forward → Carried a m (some m)
  rewrote :
      a.type ≡ action_rewrite
      → a.rewrite_mask ≢ 0
      → (m₁ : Mbuf) → IsRewritten a m m₁
      → Carried a m (some m₁)
  stopped : a.type ≡ action_drop → Carried a m none

-- What the rules make of a packet: only one that is acceptable and has a rule can go on.
pub data Routed (fs : List FlowRule) (rs : List RouteRule) (m : Mbuf) : Option Mbuf → Type 0 where
  refused : ¬ IsAcceptable m → Routed fs rs m none
  missed : IsAcceptable m → reference fs rs (meta_of m.bytes) ≡ no_rule → Routed fs rs m none
  matched :
      IsAcceptable m
      → (a : Action)
      → (reference fs rs (meta_of m.bytes) ≡ flow_action a)
        ⊎ (reference fs rs (meta_of m.bytes) ≡ route_action a)
      → (out : Option Mbuf) → Carried a m out
      → Routed fs rs m out

abbrev Refused : Mbuf → Option (ParseResult × Meta) → Type 0
Refused m out =
    (r : ParseResult) × (meta : Meta) × (out ≡ some (r, meta)) × (r ≢ ok) × ¬ IsAcceptable m

abbrev Sorted : Mbuf → Option (ParseResult × Meta) → Type 0
Sorted m out = ((out ≡ some (ok, meta_of m.bytes)) × IsAcceptable m) ⊎ Refused m out

verdict-Sorted :
    (m : Mbuf) (r : ParseResult) (meta : Meta) (out : Option (ParseResult × Meta))
    → m.nb_segs ≡ 1
    → m.pkt_len ≡ m.data_len
    → Verdict m.bytes r
    → (r ≡ ok → meta ≡ meta_of m.bytes)
    → out ≡ some (r, meta)
    → Sorted m out
verdict-Sorted m ok meta out one same (Verdict.flow f) fields e = inl (
  e ∙ ap (λ (x : Meta). some (ok, x)) (fields refl),
  record { one = one; whole = same; flow = f },
)
verdict-Sorted m unsupported meta out one same v fields e =
    inr (
      unsupported,
      meta,
      e,
      (λ p. cc),
      λ t. (let p = Verdict-ok m.bytes unsupported v t.flow in cc),
    )
verdict-Sorted m malformed meta out one same v fields e =
    inr (malformed, meta, e, (λ p. cc), λ t. (let p = Verdict-ok m.bytes malformed v t.flow in cc))

parse_frame-Sorted : (m : Mbuf) (scratch : Meta) → IsMbuf m → Sorted m (parse_frame m scratch)
parse_frame-Sorted m scratch v = elim (ℕ_discrete m.nb_segs 1) [
  | no many ↦
      inr (unsupported, scratch, unfold parse_frame in ground arith, (λ p. cc), λ t. many t.one)
  | yes one ↦ elim (ℕ_discrete m.pkt_len m.data_len) [
    | no differ ↦
        inr (malformed, scratch, unfold parse_frame in ground arith, (λ p. cc), λ t. differ t.whole)
    | yes same ↦
        let (r, meta, is, verdict, fields) = parse_frame-Judged m scratch v one same in
        verdict-Sorted m r meta _ one same verdict fields is
  ]
]

act-rewrite :
    (sums : Checksums) (m m₁ : Mbuf) (meta : Meta) (a : Action) (s : PacketStats) (ret : ℤ)
    → a.type ≡ action_rewrite
    → apply_to sums m meta a ≡ some (ret, m₁)
    → act sums a meta m s
      ≡ some (
          if is_zero ret
          then passed m₁ (record s { action_rewrite = add64 s.action_rewrite 1 })
          else drop_by_action m₁ s)
unfolding act
act-rewrite sums m m₁ meta a s ret rewrite is = ground (arith, rewrite, is)

module _ (sums : Checksums) (m : Mbuf) (v : IsMbuf m) (t : IsAcceptable m) where
  act-Carried :
      (a : Action) (s : PacketStats)
      → validate_action a ≡ pos 0
      → (p : Processed) × (act sums a (meta_of m.bytes) m s ≡ some p) × Carried a m p.out
  unfolding act
  act-Carried a s valid = elim (valid_kinds a valid) [
    | inl drop ↦ (drop_by_action m s, ground (arith, drop), Carried.stopped drop)
    | inr (inl forward) ↦ (
      passed m (record s { action_forward = add64 s.action_forward 1 }),
      ground (arith, forward),
      Carried.forwarded forward,
    )
    | inr (inr (rewrite, asks_some)) ↦
        let (m₁, is, w) = apply_to-IsRewritten sums m a v t.flow rewrite asks_some in
        (
          passed m₁ (record s { action_rewrite = add64 s.action_rewrite 1 }),
          act-rewrite sums m m₁ (meta_of m.bytes) a s (pos 0) rewrite is,
          Carried.rewrote rewrite asks_some m₁ w,
        )
  ]

  module _ {api : TableApi} (fs : List FlowRule) (rs : List RouteRule) (n : Snapshot api)
      (valid_flows : All IsFlowRule fs) (valid_routes : All IsRouteRule rs) where
    abbrev RoutedTo : Option Processed → Type 0
    RoutedTo out = (p : Processed) × (out ≡ some p) × Routed fs rs m p.out

    matched-RoutedTo :
        (a : Action) (s : PacketStats)
        → (reference fs rs (meta_of m.bytes) ≡ flow_action a)
          ⊎ (reference fs rs (meta_of m.bytes) ≡ route_action a)
        → RoutedTo (act sums a (meta_of m.bytes) m s)
    matched-RoutedTo a s e =
        let valid = reference_valid fs rs (meta_of m.bytes) a valid_flows valid_routes e in
        let (p, is, carried) = act-Carried a s valid in (p, is, Routed.matched t a e p.out carried)

    after_lookup-RoutedTo :
        (found : LookupResult × Option ℕ) (s : PacketStats)
        → resolve (slots n.actions) found ≡ some (reference fs rs (meta_of m.bytes))
        → RoutedTo (after_lookup sums api (some n) found (meta_of m.bytes) m s)
    unfolding after_lookup action_at
    after_lookup-RoutedTo (flow_hit, some i) s e =
        let (a, at, chosen) = >>=-eq-some (get_elem? (slots n.actions) i) _ e in
        rw at (matched-RoutedTo a _ (inl cc))
    after_lookup-RoutedTo (route_hit, some i) s e =
        let (a, at, chosen) = >>=-eq-some (get_elem? (slots n.actions) i) _ e in
        rw at (matched-RoutedTo a _ (inr cc))
    after_lookup-RoutedTo (miss, none) s e = (_, refl, Routed.missed t cc)
    after_lookup-RoutedTo (flow_hit, none) s e = absurd (none-ne_some e)
    after_lookup-RoutedTo (route_hit, none) s e = absurd (none-ne_some e)
    after_lookup-RoutedTo (miss, some i) s e = absurd (none-ne_some e)

-- On the snapshot of a successful build, over tables that keep the laws of DPDK, a packet is
-- processed to its end as the configured rules say. It goes on to TX only where its frame is
-- acceptable and the reference finds a forward or a rewrite: unchanged for a forward, and for a
-- rewrite with the fields that the mask names set to those of the action. A frame that is not
-- acceptable, that has no rule, or whose rule is a drop does not go on.
pub process_packet-Routed :
    {api : TableApi} (laws : TableLaws api) (g : Grants) (flows : Option (List FlowRule)) (n : ℕ)
    (routes : Option (List RouteRule)) (k generation : ℕ) (w : World) (t : Snapshot api)
    (sums : Checksums) (scratch : Meta) (m : Mbuf) (s : PacketStats)
    → Provided flows n
    → Provided routes k
    → All (λ r. r.prefix < 2 ^ 32) (elements routes k)
    → (snapshot_build api g flows n routes k generation w).result ≡ some t
    → IsMbuf m
    → (p : Processed) × (process_packet sums api (some t) scratch m s ≡ some p)
      × Routed (elements flows n) (elements routes k) m p.out
unfolding process_packet after_parse
process_packet-Routed {api} laws g flows n routes k generation w t sums scratch m s pf pr words
      built v =
    let admitted =
      snapshot_build-IsFlowRule laws g flows n routes k generation w t pf pr words built in
    elim (parse_frame-Sorted m scratch v) [
      | inl (e, good) ↦ rw e (
          after_lookup-RoutedTo sums m v good (elements flows n) (elements routes k) t admitted.0
            admitted.2 (lookup_packet api (meta_of m.bytes) (some t)) _
            (lookup_packet-snapshot_build laws g flows n routes k generation w t (meta_of m.bytes)
              pf pr words (be32-lt m.bytes 30 v.octets) built))
      | inr (ok, meta, e, not_ok, bad) ↦ absurd (not_ok refl)
      | inr (unsupported, meta, e, not_ok, bad) ↦ rw e (_, refl, Routed.refused bad)
      | inr (malformed, meta, e, not_ok, bad) ↦ rw e (_, refl, Routed.refused bad)
    ]
