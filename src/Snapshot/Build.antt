-- ===== src/Snapshot/Build.antt =====
-- `dp_snapshot_build` of dataplane/native/dp_lookup.c: the checks, the allocations in order, the two
-- loops, and the `fail` label.
use dpdk_high_speed_flow_rou.Prelude.{
  ℕ, ◌+◌, false, ◌||◌, List, Option, none, some, ltb, ◌==◌, if◌then◌else◌, replicate, ℤ, pos,
  is_neg, minus, errno_or, u32, einval, enomem, enospc,
}
use dpdk_high_speed_flow_rou.Rules.{FlowRule, RouteRule, max_flow_rules, max_route_rules}
use dpdk_high_speed_flow_rou.Tables.{TableApi}
use dpdk_high_speed_flow_rou.Snapshot.Types.{
  World, Grant, granted, refused, Grants, Snapshot, zero_action, missing, elements, slots, put_back,
  snapshot_free, new_flow_table, new_route_table,
}
use dpdk_high_speed_flow_rou.Snapshot.Loops.{add_flows, add_routes}

module _ (api : TableApi) where
  -- A snapshot under construction, and what is allocated.
  pub record Draft : Type 0 where
    pub snapshot : Snapshot api
    pub world : World

  -- A step that may fail with a negative code; `goto fail` skips the steps behind it.
  abbrev pub BuildStep : Type 0
  BuildStep = Draft → ℤ × Draft

  infixr 5 ◌>=>◌
  abbrev pub ◌>=>◌ : BuildStep → BuildStep → BuildStep
  m >=> k = λ b. let (ret, c) = m b in if is_neg ret then (ret, c) else k c

  -- The allocations, in the order of the code; each is skipped where there is nothing to hold.
  unfoldable pub alloc_actions : Grant → ℕ → BuildStep
  alloc_actions g total b = if total == 0 then (pos 0, b) else elim g [
    | refused e ↦ (errno_or e enomem, b)
    | granted ↦ (
      pos 0,
      record {
        snapshot = record b.snapshot {
          actions = some (replicate total zero_action);
          action_count = total;
        };
        world = record b.world {
          ledger = record b.world.ledger { action_stores = b.world.ledger.action_stores + 1 };
        };
      },
    )
  ]

  unfoldable pub create_flow_table : Grant → ℕ → BuildStep
  create_flow_table g flow_count b = if flow_count == 0 then (pos 0, b) else elim g [
    | refused e ↦ (errno_or e enomem, b)
    | granted ↦ (
      pos 0,
      record {
        snapshot = record b.snapshot { flow_table = some (new_flow_table api) };
        world = record b.world {
          ledger = record b.world.ledger { flow_tables = b.world.ledger.flow_tables + 1 };
        };
      },
    )
  ]

  unfoldable pub create_route_table : Grant → ℕ → BuildStep
  create_route_table g route_count b = if route_count == 0 then (pos 0, b) else elim g [
    | refused e ↦ (errno_or e enomem, b)
    | granted ↦ (
      pos 0,
      record {
        snapshot = record b.snapshot { route_table = some (new_route_table api) };
        world = record b.world {
          ledger = record b.world.ledger { route_tables = b.world.ledger.route_tables + 1 };
        };
      },
    )
  ]

  -- The loops on the snapshot. Without a table there are no rules, and no round.
  unfoldable pub fill_flow_table : Option api.Hash → List FlowRule → BuildStep
  fill_flow_table none fs b = (pos 0, b)
  fill_flow_table (some table) fs b =
      let (ret, (table₁, actions)) = add_flows api fs 0 (table, slots b.snapshot.actions) in
      (
        ret,
        record b {
          snapshot = record b.snapshot {
            flow_table = some table₁;
            actions = put_back b.snapshot.actions actions;
          };
        },
      )

  unfoldable pub fill_flows : List FlowRule → BuildStep
  unfolding fill_flow_table
  fill_flows fs b = fill_flow_table b.snapshot.flow_table fs b

  unfoldable pub fill_route_table : Option api.Lpm → List RouteRule → ℕ → BuildStep
  fill_route_table none rs flow_count b = (pos 0, b)
  fill_route_table (some table) rs flow_count b =
      let (ret, (table₁, actions)) =
        add_routes api rs flow_count (table, slots b.snapshot.actions) in
      (
        ret,
        record b {
          snapshot = record b.snapshot {
            route_table = some table₁;
            actions = put_back b.snapshot.actions actions;
          };
        },
      )

  unfoldable pub fill_routes : List RouteRule → ℕ → BuildStep
  unfolding fill_route_table
  fill_routes rs flow_count b = fill_route_table b.snapshot.route_table rs flow_count b

  abbrev pub empty_snapshot : ℕ → Snapshot api
  empty_snapshot generation = record {
    flow_table = none;
    route_table = none;
    actions = none;
    action_count = 0;
    generation = generation;
  }

  -- All that may end at `fail`.
  unfoldable pub build_steps : Grants → List FlowRule → ℕ → List RouteRule → ℕ → BuildStep
  build_steps g fs flow_count rs route_count =
      alloc_actions g.actions (u32 (flow_count + route_count))
      >=> create_flow_table g.flow_table flow_count
      >=> create_route_table g.route_table route_count
      >=> fill_flows fs
      >=> fill_routes rs flow_count

  -- The code, the `*result`, and what is allocated.
  pub record Built : Type 0 where
    pub ret : ℤ
    pub result : Option (Snapshot api)
    pub world : World

  -- The end of the build: `fail` frees the snapshot, success hands it over.
  unfoldable pub finish_build : ℤ × Draft → Built
  finish_build (ret, b) =
      if is_neg ret
      then record {
        ret = ret;
        result = none;
        world = snapshot_free api (some b.snapshot) false false b.world;
      }
      else record { ret = pos 0; result = some b.snapshot; world = b.world }

  -- The build from the allocation of the snapshot on.
  unfoldable pub build_granted :
      Grant → Grants → List FlowRule → ℕ → List RouteRule → ℕ → ℕ → World → Built
  build_granted (refused e) g fs flow_count rs route_count generation w = record {
    ret = errno_or e enomem;
    result = none;
    world = w;
  }
  build_granted granted g fs flow_count rs route_count generation w = finish_build (
      build_steps g fs flow_count rs route_count (record {
        snapshot = empty_snapshot generation;
        world = record w { ledger = record w.ledger { snapshots = w.ledger.snapshots + 1 } };
      }))

  unfoldable pub snapshot_build :
      Grants → Option (List FlowRule) → ℕ → Option (List RouteRule) → ℕ → ℕ → World → Built
  snapshot_build g flows flow_count routes route_count generation w =
      if ltb max_flow_rules flow_count || ltb max_route_rules route_count
      then record { ret = minus enospc; result = none; world = w }
      else (if missing flows flow_count || missing routes route_count
          then record { ret = minus einval; result = none; world = w }
          else build_granted g.snapshot g (elements flows flow_count) flow_count
              (elements routes route_count) route_count generation w)
