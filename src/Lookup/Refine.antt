-- ===== src/Lookup/Refine.antt =====
-- The lookup on a snapshot that is complete for some rules decides as the reference does on them.
use mathlib.Core.Option
use dpdk_high_speed_flow_rou.Prelude.{
  ℕ, ◌+◌, ◌^◌, ◌<◌, ◌≡◌, refl, List, Option, none, some, arith, length, get_elem?, lt→ltb,
  length-eq-zero, get_elem?-lt, Option-cases, inl, inr, ◌>>=◌,
}
use dpdk_high_speed_flow_rou.Packet.{Meta}
use dpdk_high_speed_flow_rou.Rules.{Action, FlowRule, RouteRule, flow_key_from_meta}
use dpdk_high_speed_flow_rou.Tables.{TableApi, TableLaws, Prefix, longest}
use dpdk_high_speed_flow_rou.Snapshot.Types.{Snapshot, slots}
use dpdk_high_speed_flow_rou.Snapshot.Routes.{Agree, prefixes, longest-best_route}
use dpdk_high_speed_flow_rou.Snapshot.Serving.{Complete, RoutesServed}
use dpdk_high_speed_flow_rou.Lookup.{
  LookupResult, flow_hit, route_hit, miss, route_result, flow_result, lookup_route, lookup_snapshot,
  lookup_packet,
}
use dpdk_high_speed_flow_rou.Lookup.Reference.{
  Choice, flow_action, route_action, no_rule, choose_route, find_flow, best_route, reference,
}

-- The decision that a result stands for, its action read from the array; `none` where a hit points
-- past the array or has no action, or a miss has one.
abbrev pub resolve : List Action → LookupResult × Option ℕ → Option Choice
resolve actions (flow_hit, some i) = get_elem? actions i >>= λ a. some (flow_action a)
resolve actions (route_hit, some i) = get_elem? actions i >>= λ a. some (route_action a)
resolve actions (miss, none) = some no_rule
resolve actions _ = none

module _ {api : TableApi} (laws : TableLaws api) (fs : List FlowRule) (rs : List RouteRule)
    (s : Snapshot api) (complete : Complete laws fs rs s) (meta : Meta)
    (word : meta.dst_ipv4 < 2 ^ 32) where
  bare-reference :
      s.route_table ≡ none
      → resolve (slots s.actions) (lookup_route api meta s)
        ≡ some (choose_route (best_route rs meta.dst_ipv4))
  unfolding lookup_route
  bare-reference bare =
      let empty : length rs ≡ 0 = rw bare at complete.routes in
      rw (bare, length-eq-zero rs empty) refl

  found-reference :
      (e : Option Prefix) (q : Option RouteRule)
      → Agree (slots s.actions) (length fs + length rs) e q
      → resolve (slots s.actions) (route_result (Option.map (λ p. p.next_hop) e) s.action_count)
        ≡ some (choose_route q)
  unfolding route_result
  found-reference none none a = refl
  found-reference none (some q) a = absurd a
  found-reference (some e) none a = absurd a
  found-reference (some e) (some q) a =
      rw (lt→ltb e.next_hop s.action_count (omega (arith, complete.sized, a)), a.2) refl

  lookup_route-reference :
      resolve (slots s.actions) (lookup_route api meta s)
      ≡ some (choose_route (best_route rs meta.dst_ipv4))
  unfolding lookup_route
  lookup_route-reference = elim (Option-cases s.route_table) [
    | inl bare ↦ bare-reference bare
    | inr (t, made) ↦
        let served : RoutesServed laws fs rs (some t) (slots s.actions) =
          rw made at complete.routes in
        rw (made, laws.lpm_lookup-longest t meta.dst_ipv4 word, served.0)
          (found-reference (longest meta.dst_ipv4 (prefixes (length fs) rs))
            (best_route rs meta.dst_ipv4)
            (longest-best_route (slots s.actions) meta.dst_ipv4 (length fs) (length fs + length rs)
              rs (omega arith) served.1))
  ]

  flow_result-reference :
      (slot : Option ℕ)
      → ((j : ℕ) → slot ≡ some j → j < length fs)
      → (slot >>= get_elem? (slots s.actions)) ≡ find_flow fs (flow_key_from_meta meta)
      → resolve (slots s.actions) (flow_result slot (lookup_route api meta s))
        ≡ some (reference fs rs meta)
  unfolding flow_result
  flow_result-reference none below found = rw (← found) lookup_route-reference
  flow_result-reference (some i) below found =
      let (a, held) =
        get_elem?-lt (slots s.actions) i (omega (arith, below i refl, complete.sized)) in
      rw (← found, held) refl

  lookup_snapshot-reference :
      resolve (slots s.actions) (lookup_snapshot api meta s) ≡ some (reference fs rs meta)
  unfolding lookup_snapshot
  lookup_snapshot-reference =
      flow_result-reference _ (complete.flows.below (flow_key_from_meta meta))
        (complete.flows.found (flow_key_from_meta meta))

  pub lookup_packet-reference :
      resolve (slots s.actions) (lookup_packet api meta (some s)) ≡ some (reference fs rs meta)
  unfolding lookup_packet
  lookup_packet-reference = lookup_snapshot-reference
