-- ===== src/Snapshot/Flows.antt =====
-- The flow loop fills the table with the flows: after it a key finds the action of its flow.
use mathlib.Core.Path.{subst}
use mathlib.Core.Bool.{false≢true}
use dpdk_high_speed_flow_rou.Prelude.{
  sym, ◌∙◌, ℕ, ◌+◌, ◌≤◌, ◌<◌, ◌≡◌, refl, inl, inr, true, false, List, [], ◌∷◌, Option, none, some,
  arith, length, set, get_elem?, length-set, get_elem?-set, if◌then◌else◌, ℤ, is_neg, ◌>>=◌,
  Option-cases, Bool-cases,
}
use dpdk_high_speed_flow_rou.Rules.{Action, FlowRule, FlowKey, same_key, flow_key_of_rule}
use dpdk_high_speed_flow_rou.Tables.{TableApi, TableLaws}
use dpdk_high_speed_flow_rou.Lookup.Reference.{find_flow}
use dpdk_high_speed_flow_rou.Snapshot.Loops.{add_flow, add_flows}

pub same_key-eq : (k j : FlowKey) → same_key k j ≡ true → k ≡ j
same_key-eq k j h = ground arith

abbrev pub first_of_two : Option Action → Option Action → Option Action
first_of_two (some a) b = some a
first_of_two none b = b

module _ {api : TableApi} (laws : TableLaws api) where
  -- The table and the array give each key its action, from the first `n` slots.
  pub record Serves (t : api.Hash) (actions : List Action) (n : ℕ) (ref : FlowKey → Option Action)
      : Type 0 where
    pub below : (k : FlowKey) (j : ℕ) → api.hash_lookup_data t k ≡ some j → j < n
    pub found : (k : FlowKey) → (api.hash_lookup_data t k >>= get_elem? actions) ≡ ref k

  abbrev extended : FlowRule → (FlowKey → Option Action) → FlowKey → Option Action
  extended f ref k = if same_key (flow_key_of_rule f) k then some f.action else ref k

  module _ (f : FlowRule) (i : ℕ) (t : api.Hash) (actions : List Action) where
    abbrev out : ℤ × (api.Hash × List Action)
    out = add_flow api f i (t, actions)

    -- A round that does not fail has stored the key's slot and the slot's action.
    pub add_flow-ok :
        is_neg out.0 ≡ false
        → (api.hash_lookup_data t (flow_key_of_rule f) ≡ none)
          × (is_neg (api.hash_add_key_data t (flow_key_of_rule f) i).0 ≡ false)
          × (out.1.0 ≡ (api.hash_add_key_data t (flow_key_of_rule f) i).1)
          × (out.1.1 ≡ set actions i f.action)
    unfolding add_flow
    add_flow-ok h = ground arith

    module _ {ref : FlowKey → Option Action} (h : is_neg out.0 ≡ false) (room : i < length actions)
        (s : Serves t actions i ref) where
      stored-lookup :
          (k : FlowKey)
          → api.hash_lookup_data out.1.0 k
            ≡ (if same_key (flow_key_of_rule f) k then some i else api.hash_lookup_data t k)
      stored-lookup k =
          let (absent, added, table, array) = add_flow-ok h in
          rw table (laws.hash_lookup-add t (flow_key_of_rule f) i added k)

      stored-below : (k : FlowKey) (j : ℕ) → api.hash_lookup_data out.1.0 k ≡ some j → j < i + 1
      stored-below k j e = ground (arith, stored-lookup k, s.below k j)

      stored-found :
          (k : FlowKey) → (api.hash_lookup_data out.1.0 k >>= get_elem? out.1.1) ≡ extended f ref k
      stored-found k =
          let (absent, added, table, array) = add_flow-ok h in
          elim (Option-cases (api.hash_lookup_data t k)) [
            | inl e ↦ rw array (
                ground (arith, stored-lookup k, s.found k, get_elem?-set actions i i f.action room))
            | inr (j, e) ↦ rw array (
                ground (
                  arith,
                  stored-lookup k,
                  s.found k,
                  s.below k j,
                  get_elem?-set actions i i f.action room,
                  get_elem?-set actions i j f.action room,
                ))
          ]

      add_flow-Serves : Serves out.1.0 out.1.1 (i + 1) (extended f ref)
      add_flow-Serves = record { below = stored-below; found = stored-found }

      -- The key was free before the round.
      ref_free : ref (flow_key_of_rule f) ≡ none
      ref_free =
          let (absent, added, table, array) = add_flow-ok h in
          ground (arith, s.found (flow_key_of_rule f))

      merged :
          (rest : Option Action) (k : FlowKey)
          → first_of_two (extended f ref k) rest
            ≡ first_of_two (ref k) (if same_key (flow_key_of_rule f) k then some f.action else rest)
      merged rest k = elim (Bool-cases (same_key (flow_key_of_rule f) k)) [
        | inl same ↦
            let free : ref k ≡ none = subst (λ j. ref j ≡ none) (same_key-eq _ k same) ref_free in
            rw (same, free) refl
        | inr other ↦ rw other refl
      ]

    length-add_flow : is_neg out.0 ≡ false → length out.1.1 ≡ length actions
    length-add_flow h =
        let (absent, added, table, array) = add_flow-ok h in
        rw array (length-set actions i f.action)

  -- A loop that does not fail has gone through its first round.
  pub add_flows-cons :
      (f : FlowRule) (fs : List FlowRule) (i : ℕ) (s : api.Hash × List Action)
      → is_neg (add_flows api (f ∷ fs) i s).0 ≡ false
      → (is_neg (add_flow api f i s).0 ≡ false)
        × (add_flows api (f ∷ fs) i s ≡ add_flows api fs (i + 1) (add_flow api f i s).1)
  unfolding add_flows
  add_flows-cons f fs i s h = elim (Bool-cases (is_neg (add_flow api f i s).0)) [
    | inl bad ↦ absurd (false≢true (sym (rw bad at h) ∙ bad))
    | inr good ↦ (good, rw good refl)
  ]

  -- After the loop a key finds what it found before, else the action of the first flow with that key.
  pub add_flows-Serves :
      (fs : List FlowRule) (i : ℕ) (t : api.Hash) (actions : List Action)
      {ref : FlowKey → Option Action}
      → let out = add_flows api fs i (t, actions) in
        is_neg out.0 ≡ false
        → i + length fs ≤ length actions
        → Serves t actions i ref
        → Serves out.1.0 out.1.1 (i + length fs) (λ k. first_of_two (ref k) (find_flow fs k))
          × (length out.1.1 ≡ length actions)
  unfolding add_flows
  add_flows-Serves [] i t actions {ref} h room s = (
    record {
      below = λ k j e. omega (arith, s.below k j e);
      found = λ k. ground (arith, s.found k);
    },
    refl,
  )
  add_flows-Serves (f ∷ fs) i t actions {ref} h room s =
      let (good, step) = add_flows-cons f fs i (t, actions) h in
      let next = (add_flow api f i (t, actions)).1 in
      let fits : i < length actions = omega arith in
      let same = length-add_flow f i t actions good in
      let (served, size) =
        add_flows-Serves fs (i + 1) next.0 next.1 {ref = extended f ref} (rw step at h)
          (omega (arith, same)) (add_flow-Serves f i t actions good fits s) in
      rw step (
        record {
          below = λ k j e. omega (arith, served.below k j e);
          found = λ k. served.found k ∙ merged f i t actions good fits s (find_flow fs k) k;
        },
        size ∙ same,
      )
