-- ===== src/Snapshot/Unique.antt =====
-- The route loop of dp_snapshot_build takes a prefix once.
use dpdk_high_speed_flow_rou.Prelude.{
  ℕ, ◌+◌, ◌^◌, ◌≤◌, ◌<◌, ◌≡◌, refl, Bool, true, false, ◌&&◌, ◌||◌, List, [], ◌∷◌, ◌++◌, arith, All,
  length, is_neg, ◌==◌,
}
use dpdk_high_speed_flow_rou.Rules.{Action, RouteRule}
use dpdk_high_speed_flow_rou.Tables.{TableApi, TableLaws, Prefix, holds_prefix}
use dpdk_high_speed_flow_rou.Snapshot.Loops.{add_route, add_routes}
use dpdk_high_speed_flow_rou.Snapshot.Routes.{add_route-IsPrefix, add_route-rules, add_routes-cons}

-- Whether one of the routes has the prefix.
abbrev pub lists_prefix : List RouteRule → ℕ → ℕ → Bool
lists_prefix [] p d = false
lists_prefix (r ∷ rs) p d = r.prefix == p && r.depth == d || lists_prefix rs p d

-- No two routes have the same prefix.
abbrev pub AreUnique : List RouteRule → Type 0
AreUnique [] = Unit {0}
AreUnique (r ∷ rs) = (lists_prefix rs r.prefix r.depth ≡ false) × AreUnique rs

pub holds_prefix-append :
    (es fs : List Prefix) (p d : ℕ)
    → holds_prefix (es ++ fs) p d ≡ (holds_prefix es p d || holds_prefix fs p d)
holds_prefix-append [] fs p d = refl
holds_prefix-append (e ∷ es) fs p d = ground (arith, holds_prefix-append es fs p d)

module _ {api : TableApi} (laws : TableLaws api) where
  -- A prefix that the table holds is not that of a route that is still to be added.
  lists_prefix_held :
      (rs : List RouteRule) (slot : ℕ) (s : api.Lpm × List Action) (p d : ℕ)
      → is_neg (add_routes api rs slot s).0 ≡ false
      → All (λ r. r.prefix < 2 ^ 32) rs
      → slot + length rs ≤ 2 ^ 24
      → holds_prefix (laws.rules s.0) p d ≡ true
      → lists_prefix rs p d ≡ false
  lists_prefix_held [] slot s p d h words few held = refl
  lists_prefix_held (r ∷ rs) slot s p d h words few held =
      let (good, step) = add_routes-cons laws r rs slot s h in
      let (at, free) = add_route-IsPrefix laws r slot s.0 s.1 good words.0 in
      let table = add_route-rules laws r slot s.0 s.1 good words.0 (omega arith) in
      let next = (add_route api r slot s).1 in
      let added : List Prefix =
        record { prefix = r.prefix; depth = r.depth; next_hop = slot } ∷ [] in
      let still : holds_prefix (laws.rules next.0) p d ≡ true =
        rw (table, holds_prefix-append (laws.rules s.0) added p d, held) refl in
      let rest =
        lists_prefix_held rs (slot + 1) next p d (rw step at h) words.1 (omega arith) still in
      ground (arith, rest, free, held)

  pub add_routes-AreUnique :
      (rs : List RouteRule) (slot : ℕ) (s : api.Lpm × List Action)
      → is_neg (add_routes api rs slot s).0 ≡ false
      → All (λ r. r.prefix < 2 ^ 32) rs
      → slot + length rs ≤ 2 ^ 24
      → AreUnique rs
  add_routes-AreUnique [] slot s h words few = tt
  add_routes-AreUnique (r ∷ rs) slot s h words few =
      let (good, step) = add_routes-cons laws r rs slot s h in
      let table = add_route-rules laws r slot s.0 s.1 good words.0 (omega arith) in
      let next = (add_route api r slot s).1 in
      let added : List Prefix =
        record { prefix = r.prefix; depth = r.depth; next_hop = slot } ∷ [] in
      let held : holds_prefix (laws.rules next.0) r.prefix r.depth ≡ true =
        rw (table, holds_prefix-append (laws.rules s.0) added r.prefix r.depth) (ground arith) in
      (
        lists_prefix_held rs (slot + 1) next r.prefix r.depth (rw step at h) words.1 (omega arith)
            held,
        add_routes-AreUnique rs (slot + 1) next (rw step at h) words.1 (omega arith),
      )
