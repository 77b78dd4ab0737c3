-- ===== src/Snapshot/Types.antt =====
-- The snapshot of dataplane/native/dp_lookup.h, `dp_snapshot_free` of dp_lookup.c, and the state that
-- a build works on: a ledger of what is allocated, the statistics, and what the allocators answer.
use dpdk_high_speed_flow_rou.Prelude.{
  ℕ, ◌+◌, ◌-◌, ◌*◌, Bool, true, false, not, ◌&&◌, List, [], Option, none, some, ◌==◌, if◌then◌else◌,
  take, u64,
}
use dpdk_high_speed_flow_rou.Rules.{Action, max_flow_rules, max_route_rules}
use dpdk_high_speed_flow_rou.Tables.{TableApi}

-- The tables as `dp_snapshot_build` creates them, with the sizes of its parameters.
abbrev pub new_flow_table : (api : TableApi) → api.Hash
new_flow_table api = api.hash_create (max_flow_rules * 2)

abbrev pub new_route_table : (api : TableApi) → api.Lpm
new_route_table api = api.lpm_create max_route_rules 256

-- How many of each object are allocated.
pub record Ledger : Type 0 where
  pub snapshots : ℕ
  pub action_stores : ℕ
  pub flow_tables : ℕ
  pub route_tables : ℕ

-- The part of `struct dp_stats` that the rule code writes.
pub record RuleStats : Type 0 where
  pub rules_generation : ℕ  -- uint64_t
  pub rules_publish_success : ℕ  -- uint64_t
  pub rules_publish_failed : ℕ  -- uint64_t
  pub rules_reclaimed : ℕ  -- uint64_t
  pub flow_table_freed : ℕ
  pub route_table_freed : ℕ
  pub action_store_freed : ℕ
  pub snapshot_freed : ℕ
  pub qsbr_freed : ℕ

pub record World : Type 0 where
  pub ledger : Ledger
  pub stats : RuleStats

pub data Grant : Type 0 where
  granted : Grant
  refused : (rte_errno : ℕ) → Grant

-- What the allocators answer during one build.
pub record Grants : Type 0 where
  pub snapshot : Grant
  pub actions : Grant
  pub flow_table : Grant
  pub route_table : Grant

-- A zeroed `struct dp_rule_action`
abbrev pub zero_action : Action
zero_action = record {
  type = 0;
  rewrite_mask = 0;
  reserved = 0;
  src_ipv4 = 0;
  dst_ipv4 = 0;
  src_port = 0;
  dst_port = 0;
}

abbrev pub is_some {ℓ} : {A : Type ℓ} → Option A → Bool
is_some none = false
is_some (some a) = true

abbrev pub count_one : Bool → ℕ
count_one true = 1
count_one false = 0

-- `(count != 0 && !array)`, and the array's first `count` elements, which the caller provides.
abbrev pub missing {ℓ} : {A : Type ℓ} → Option (List A) → ℕ → Bool
missing array count = not (count == 0) && not (is_some array)

abbrev pub elements {ℓ} : {A : Type ℓ} → Option (List A) → ℕ → List A
elements none count = []
elements (some array) count = take count array

abbrev pub slots : Option (List Action) → List Action
slots none = []
slots (some actions) = actions

-- The array as the loops leave it, where there is one.
abbrev pub put_back : Option (List Action) → List Action → Option (List Action)
put_back none actions = none
put_back (some old) actions = some actions

module _ (api : TableApi) where
  -- `struct dp_rule_snapshot`
  pub record Snapshot : Type 0 where
    pub flow_table : Option api.Hash
    pub route_table : Option api.Lpm
    pub actions : Option (List Action)
    pub action_count : ℕ  -- uint32_t
    pub generation : ℕ  -- uint64_t

  -- `dp_snapshot_free`, each `if` with the object that it frees.
  unfoldable pub snapshot_free : Option Snapshot → Bool → Bool → World → World
  snapshot_free none reclaimed record_resource_stats w = w
  snapshot_free (some s) reclaimed record_resource_stats w =
      let note = λ (there : Bool) (old : ℕ). if there && record_resource_stats then 1 else old in
      record {
        ledger = record {
          snapshots = w.ledger.snapshots - 1;
          action_stores = w.ledger.action_stores - count_one (is_some s.actions);
          flow_tables = w.ledger.flow_tables - count_one (is_some s.flow_table);
          route_tables = w.ledger.route_tables - count_one (is_some s.route_table);
        };
        stats = record w.stats {
          flow_table_freed = note (is_some s.flow_table) w.stats.flow_table_freed;
          route_table_freed = note (is_some s.route_table) w.stats.route_table_freed;
          action_store_freed = note (is_some s.actions) w.stats.action_store_freed;
          snapshot_freed = note true w.stats.snapshot_freed;
          rules_reclaimed =
              if reclaimed then u64 (w.stats.rules_reclaimed + 1) else w.stats.rules_reclaimed;
        };
      }
