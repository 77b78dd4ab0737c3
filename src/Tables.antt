-- ===== src/Tables.antt =====
-- What the dataplane relies on of DPDK's rte_hash and rte_lpm, neither of which is in the repository:
-- the operations that it calls, and their documented behaviour as laws.
pub mod Assoc
use dpdk_high_speed_flow_rou.Prelude.{
  ℕ, ◌+◌, ◌-◌, ◌/◌, ◌%◌, ◌^◌, ◌≤◌, ◌<◌, ◌≡◌, ◌↔◌, Bool, true, false, List, [], ◌∷◌, ◌++◌, Option,
  none, some, ltb, ◌==◌, ◌&&◌, ◌||◌, not, leb, if◌then◌else◌, ℤ, is_neg, is_zero,
}
use mathlib.Core.Option
use dpdk_high_speed_flow_rou.Rules.{FlowKey, same_key}

-- A rule that an LPM table holds.
pub record Prefix : Type 0 where
  pub prefix : ℕ
  pub depth : ℕ
  pub next_hop : ℕ

-- An address and a prefix agree on the first `depth` bits.
abbrev pub covers : ℕ → ℕ → ℕ → Bool
covers prefix depth ip = ip / 2 ^ (32 - depth) == prefix / 2 ^ (32 - depth)

abbrev pub holds_prefix : List Prefix → ℕ → ℕ → Bool
holds_prefix [] p d = false
holds_prefix (e ∷ es) p d = e.prefix == p && e.depth == d || holds_prefix es p d

abbrev pub deeper : Prefix → Option Prefix → Bool
deeper e none = true
deeper e (some r) = leb r.depth e.depth

-- The rule of greatest depth among those that cover the address.
abbrev pub longest : ℕ → List Prefix → Option Prefix
longest ip [] = none
longest ip (e ∷ es) =
    let rest = longest ip es in if covers e.prefix e.depth ip && deeper e rest then some e else rest

pub record TableApi : Type 1 where
  -- rte_hash with 16-byte keys; the stored pointer is an index into the action array.
  pub Hash : Type 0
  -- A table for so many entries.
  pub hash_create : ℕ → Hash
  pub hash_lookup_data : Hash → FlowKey → Option ℕ
  pub hash_add_key_data : Hash → FlowKey → ℕ → ℤ × Hash
  -- rte_lpm; `lpm_lookup` gives the next hop where `rte_lpm_lookup` returns 0.
  pub Lpm : Type 0
  -- `max_rules` and `number_tbl8s` of its configuration.
  pub lpm_create : ℕ → ℕ → Lpm
  pub lpm_is_rule_present : Lpm → ℕ → ℕ → ℤ
  pub lpm_add : Lpm → ℕ → ℕ → ℕ → ℤ × Lpm
  pub lpm_lookup : Lpm → ℕ → Option ℕ

-- A prefix that rte_lpm stores as it is given: depth in range, no host bits.
abbrev pub IsPrefix : ℕ → ℕ → Type 0
IsPrefix p d = (1 ≤ d) × (d ≤ 32) × (p < 2 ^ 32) × (p % 2 ^ (32 - d) ≡ 0)

pub record TableLaws (api : TableApi) : Type 0 where
  -- A new table holds no key; a successful add binds its key and no other.
  pub hash_lookup-create :
      (entries : ℕ) (k : FlowKey) → api.hash_lookup_data (api.hash_create entries) k ≡ none
  pub hash_lookup-add :
      (t : api.Hash) (k : FlowKey) (v : ℕ)
      → is_neg (api.hash_add_key_data t k v).0 ≡ false
      → (j : FlowKey)
      → api.hash_lookup_data (api.hash_add_key_data t k v).1 j
        ≡ (if same_key k j then some v else api.hash_lookup_data t j)
  -- The rules that an LPM table holds, in the order of their addition.
  pub rules : api.Lpm → List Prefix
  pub rules-create : (max_rules tbl8s : ℕ) → rules (api.lpm_create max_rules tbl8s) ≡ []
  -- The test answers 1 or 0, or a negative code.
  pub lpm_present :
      (t : api.Lpm) (p d : ℕ)
      → IsPrefix p d
      → is_neg (api.lpm_is_rule_present t p d) ≡ false
      → is_zero (api.lpm_is_rule_present t p d) ≡ not (holds_prefix (rules t) p d)
  -- A successful add of a new rule, its next hop within 24 bits, appends it.
  pub rules-add :
      (t : api.Lpm) (p d hop : ℕ)
      → IsPrefix p d
      → hop < 2 ^ 24
      → holds_prefix (rules t) p d ≡ false
      → is_neg (api.lpm_add t p d hop).0 ≡ false
      → rules (api.lpm_add t p d hop).1
        ≡ rules t ++ record { prefix = p; depth = d; next_hop = hop } ∷ []
  -- A lookup finds the longest prefix.
  pub lpm_lookup-longest :
      (t : api.Lpm) (ip : ℕ)
      → ip < 2 ^ 32
      → api.lpm_lookup t ip ≡ Option.map (λ e. e.next_hop) (longest ip (rules t))
