-- ===== src/Tables/Assoc.antt =====
-- Tables that satisfy the laws: association lists.
use mathlib.Core.Option
use dpdk_high_speed_flow_rou.Prelude.{
  ℕ, ◌≡◌, refl, Bool, true, false, not, List, [], ◌∷◌, ◌++◌, Option, none, some, if◌then◌else◌, ℤ,
  pos, is_zero,
}
use dpdk_high_speed_flow_rou.Rules.{FlowKey, same_key}
use dpdk_high_speed_flow_rou.Tables.{Prefix, TableApi, TableLaws, longest, holds_prefix}

abbrev find_key : List (FlowKey × ℕ) → FlowKey → Option ℕ
find_key [] j = none
find_key ((k, v) ∷ t) j = if same_key k j then some v else find_key t j

abbrev flag : Bool → ℤ
flag true = pos 1
flag false = pos 0

abbrev pub assoc_api : TableApi
assoc_api = record {
  Hash = List (FlowKey × ℕ);
  hash_create = λ entries. [];
  hash_lookup_data = find_key;
  hash_add_key_data = λ t k v. (pos 0, (k, v) ∷ t);
  Lpm = List Prefix;
  lpm_create = λ max_rules tbl8s. [];
  lpm_is_rule_present = λ t p d. flag (holds_prefix t p d);
  lpm_add = λ t p d hop. (pos 0, t ++ record { prefix = p; depth = d; next_hop = hop } ∷ []);
  lpm_lookup = λ t ip. Option.map (λ e. e.next_hop) (longest ip t);
}

is_zero-flag : (b : Bool) → is_zero (flag b) ≡ not b
is_zero-flag true = refl
is_zero-flag false = refl

pub assoc-TableLaws : TableLaws assoc_api
assoc-TableLaws = record {
  hash_lookup-create = λ entries k. refl;
  hash_lookup-add = λ t k v h j. refl;
  rules = λ t. t;
  rules-create = λ max_rules tbl8s. refl;
  lpm_present = λ t p d v h. is_zero-flag (holds_prefix t p d);
  rules-add = λ t p d hop v small new h. refl;
  lpm_lookup-longest = λ t ip h. refl;
}
