-- ===== src/Snapshot/Routes.antt =====
-- The route loop fills the LPM table with the routes: after it the longest prefix is the best route.
use mathlib.Core.Bool.{false≢true}
use mathlib.Core.List.{append-nil, append_assoc}
use dpdk_high_speed_flow_rou.Prelude.{
  ℕ, ◌+◌, ◌^◌, ◌≤◌, ◌<◌, ◌≡◌, refl, sym, ◌∙◌, Bool, true, false, List, [], ◌∷◌, ◌++◌, Option, none,
  some, arith, length, set, get_elem?, length-set, get_elem?-set, All, ℤ, is_neg, is_zero,
  Bool-cases, inl, inr, leb, ◌==◌, ◌&&◌, if◌then◌else◌,
}
use dpdk_high_speed_flow_rou.Rules.{Action, RouteRule, route_rejected, has_host_bits}
use dpdk_high_speed_flow_rou.Rules.Mask.{has_host_bits_iff}
use dpdk_high_speed_flow_rou.Tables.{
  TableApi, TableLaws, Prefix, IsPrefix, longest, holds_prefix, deeper, covers,
}
use dpdk_high_speed_flow_rou.Lookup.Reference.{best_route, no_shorter}
use dpdk_high_speed_flow_rou.Snapshot.Loops.{add_route, add_routes}

-- The table's rules for routes whose actions start at a slot.
abbrev pub prefixes : ℕ → List RouteRule → List Prefix
prefixes slot [] = []
prefixes slot (r ∷ rs) =
    record { prefix = r.prefix; depth = r.depth; next_hop = slot } ∷ prefixes (slot + 1) rs

-- The array holds the actions of the routes, from a slot on.
abbrev pub Stored : List Action → ℕ → List RouteRule → Type 0
Stored actions slot [] = Unit
Stored actions slot (r ∷ rs) =
    (get_elem? actions slot ≡ some r.action) × Stored actions (slot + 1) rs

-- A rule of the table and the route that it stands for.
abbrev pub Agree : List Action → ℕ → Option Prefix → Option RouteRule → Type 0
Agree actions bound none none = Unit
Agree actions bound (some e) (some r) =
    (e.depth ≡ r.depth) × (e.next_hop < bound) × (get_elem? actions e.next_hop ≡ some r.action)
Agree actions bound _ _ = ⊥

-- One more rule is chosen on both sides, or on neither.
Agree-choose :
    (actions : List Action) (bound : ℕ) (covered : Bool) (e : Prefix) (r : RouteRule)
    (rest : Option Prefix) (others : Option RouteRule)
    → Agree actions bound (some e) (some r)
    → Agree actions bound rest others
    → Agree actions bound
        (if covered && deeper e rest then some e else rest)
        (if covered && no_shorter r others then some r else others)
Agree-choose actions bound false e r rest others new old = old
Agree-choose actions bound true e r none none new old = new
Agree-choose actions bound true e r none (some q) new old = absurd old
Agree-choose actions bound true e r (some p) none new old = absurd old
Agree-choose actions bound true e r (some p) (some q) new old =
    let same : leb p.depth e.depth ≡ leb q.depth r.depth = ground (arith, old.0, new.0) in
    elim (Bool-cases (leb q.depth r.depth)) [
      | inl longer ↦ rw (same, longer) new
      | inr shorter ↦ rw (same, shorter) old
    ]

pub longest-best_route :
    (actions : List Action) (ip slot bound : ℕ) (rs : List RouteRule)
    → slot + length rs ≤ bound
    → Stored actions slot rs
    → Agree actions bound (longest ip (prefixes slot rs)) (best_route rs ip)
longest-best_route actions ip slot bound [] room s = tt
longest-best_route actions ip slot bound (r ∷ rs) room s =
    Agree-choose actions bound (covers r.prefix r.depth ip)
      (record { prefix = r.prefix; depth = r.depth; next_hop = slot }) r
      (longest ip (prefixes (slot + 1) rs)) (best_route rs ip) (refl, omega arith, s.0)
      (longest-best_route actions ip (slot + 1) bound rs (omega arith) s.1)

module _ {api : TableApi} (laws : TableLaws api) where
  module _ (r : RouteRule) (slot : ℕ) (t : api.Lpm) (actions : List Action) where
    abbrev out : ℤ × (api.Lpm × List Action)
    out = add_route api r slot (t, actions)

    -- A round that does not fail has passed every test and added the prefix.
    pub add_route-ok :
        is_neg out.0 ≡ false
        → (route_rejected r ≡ false)
          × (has_host_bits r ≡ false)
          × (is_neg (api.lpm_is_rule_present t r.prefix r.depth) ≡ false)
          × (is_zero (api.lpm_is_rule_present t r.prefix r.depth) ≡ true)
          × (is_neg (api.lpm_add t r.prefix r.depth slot).0 ≡ false)
          × (out.1.0 ≡ (api.lpm_add t r.prefix r.depth slot).1)
          × (out.1.1 ≡ set actions slot r.action)
    unfolding add_route
    add_route-ok h = ground arith

    -- The prefix is one that rte_lpm stores as it is, and it was not there.
    pub add_route-IsPrefix :
        is_neg out.0 ≡ false
        → r.prefix < 2 ^ 32
        → IsPrefix r.prefix r.depth × (holds_prefix (laws.rules t) r.prefix r.depth ≡ false)
    unfolding route_rejected
    add_route-IsPrefix h word =
        let (sound, bits, asked, absent, added, table, array) = add_route-ok h in
        let deep : (1 ≤ r.depth) × (r.depth ≤ 32) = ground arith in
        let p : IsPrefix r.prefix r.depth =
          (deep.0, deep.1, word, (has_host_bits_iff r word deep.1).0 bits) in
        (p, ground (arith, laws.lpm_present t r.prefix r.depth p asked))

    pub add_route-rules :
        is_neg out.0 ≡ false
        → r.prefix < 2 ^ 32
        → slot < 2 ^ 24
        → laws.rules out.1.0
          ≡ laws.rules t ++ record { prefix = r.prefix; depth = r.depth; next_hop = slot } ∷ []
    add_route-rules h word hop =
        let (sound, bits, asked, absent, added, table, array) = add_route-ok h in
        let (p, free) = add_route-IsPrefix h word in
        rw table (laws.rules-add t r.prefix r.depth slot p hop free added)

    length-add_route : is_neg out.0 ≡ false → length out.1.1 ≡ length actions
    length-add_route h =
        let (sound, bits, asked, absent, added, table, array) = add_route-ok h in
        rw array (length-set actions slot r.action)

    add_route-slot :
        is_neg out.0 ≡ false
        → slot < length actions
        → (j : ℕ) → get_elem? out.1.1 j ≡ (if slot == j then some r.action else get_elem? actions j)
    add_route-slot h room j =
        let (sound, bits, asked, absent, added, table, array) = add_route-ok h in
        rw array (get_elem?-set actions slot j r.action room)

  -- A loop that does not fail has gone through its first round.
  pub add_routes-cons :
      (r : RouteRule) (rs : List RouteRule) (slot : ℕ) (s : api.Lpm × List Action)
      → is_neg (add_routes api (r ∷ rs) slot s).0 ≡ false
      → (is_neg (add_route api r slot s).0 ≡ false)
        × (add_routes api (r ∷ rs) slot s ≡ add_routes api rs (slot + 1) (add_route api r slot s).1)
  unfolding add_routes
  add_routes-cons r rs slot s h = elim (Bool-cases (is_neg (add_route api r slot s).0)) [
    | inl bad ↦ absurd (false≢true (sym (rw bad at h) ∙ bad))
    | inr good ↦ (good, rw good refl)
  ]

  -- What a successful loop leaves: the new rules, their actions, and the lower slots as they were.
  pub record Routed (t : api.Lpm) (actions : List Action) (slot : ℕ) (rs : List RouteRule)
      (out : api.Lpm × List Action) : Type 0 where
    pub table : laws.rules out.0 ≡ laws.rules t ++ prefixes slot rs
    pub stored : Stored out.1 slot rs
    pub lower : (j : ℕ) → j < slot → get_elem? out.1 j ≡ get_elem? actions j
    pub size : length out.1 ≡ length actions

  pub add_routes-Routed :
      (rs : List RouteRule) (slot : ℕ) (t : api.Lpm) (actions : List Action)
      → is_neg (add_routes api rs slot (t, actions)).0 ≡ false
      → All (λ r. r.prefix < 2 ^ 32) rs
      → slot + length rs ≤ length actions
      → length actions ≤ 2 ^ 24
      → Routed t actions slot rs (add_routes api rs slot (t, actions)).1
  unfolding add_routes
  add_routes-Routed [] slot t actions h words room small = record {
    table = sym (append-nil _);
    stored = tt;
    lower = λ j _. refl;
    size = refl;
  }
  add_routes-Routed (r ∷ rs) slot t actions h words room small =
      let (good, step) = add_routes-cons r rs slot (t, actions) h in
      let next = (add_route api r slot (t, actions)).1 in
      let fits : slot < length actions = omega arith in
      let same = length-add_route r slot t actions good in
      let put = add_route-slot r slot t actions good fits in
      let rest : Routed next.0 next.1 (slot + 1) rs (add_routes api rs (slot + 1) next).1 =
        add_routes-Routed rs (slot + 1) next.0 next.1 (rw step at h) words.1 (omega (arith, same))
          (omega (arith, same)) in
      rw step (record {
        table =
            rest.table
            ∙ rw (add_route-rules r slot t actions good words.0 (omega arith)) (
                append_assoc (laws.rules t)
                  (record { prefix = r.prefix; depth = r.depth; next_hop = slot } ∷ [])
                  (prefixes (slot + 1) rs));
        stored = (rest.lower slot (omega arith) ∙ ground (arith, put slot), rest.stored);
        lower = λ j below. rest.lower j (omega arith) ∙ ground (arith, put j);
        size = rest.size ∙ same;
      })
