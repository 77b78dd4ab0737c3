-- ===== src/Examples/Runs.antt =====
-- A burst of two packets in a round of the loop, and a run with a worker that is not launched.
use dpdk_high_speed_flow_rou.Prelude.{
  ◌/◌, refl, true, false, [], ◌∷◌, some, arith, pos, ◌≡◌, ◌≤◌, ◌⊎◌, inr, minus, eio,
}
use dpdk_high_speed_flow_rou.Parser.{zero_meta}
use dpdk_high_speed_flow_rou.Tables.Assoc.{assoc_api, assoc-TableLaws}
use dpdk_high_speed_flow_rou.Stats.{zero_stats}
use dpdk_high_speed_flow_rou.State.{Dp}
use dpdk_high_speed_flow_rou.Tx.{addrs}
use dpdk_high_speed_flow_rou.Worker.Poll.{Round, poll}
use dpdk_high_speed_flow_rou.Worker.Settled.{IsBuilt}
use dpdk_high_speed_flow_rou.Worker.Rounds.{IsFair, IsSettled, poll-IsSettled}
use dpdk_high_speed_flow_rou.Worker.Run.{
  parked, joins, returned, RunState, launch_worker, main_turn, begin_run, Turns, by_main, Reaches,
  begins, turns, none_more, one_more,
}
use dpdk_high_speed_flow_rou.Worker.Turned.{turns_left}
use dpdk_high_speed_flow_rou.Worker.Over.{IsStartable, IsOver}
use dpdk_high_speed_flow_rou.Worker.Ended.{Reaches_stop, Reaches_ends}
use dpdk_high_speed_flow_rou.Examples.Data.{
  flow, route, all_granted, world, built, snapshot_build-built, packet-IsMbuf, received, zero_sums,
  ruled_state, worker,
}

built-IsBuilt : IsBuilt built
built-IsBuilt = record {
  grants = all_granted;
  flows = some (flow ∷ []);
  flow_count = 1;
  routes = some (route ∷ []);
  route_count = 1;
  generation = 1;
  world = world;
  flows_there = omega arith;
  routes_there = omega arith;
  words = (omega arith, tt);
  built = snapshot_build-built;
}

-- The driver takes one packet at most.
abbrev round : Round assoc_api
round = record { pkts = received; snapshot = some built; sent = λ n. n / 2 }

round-IsFair : IsFair round
round-IsFair = record {
  packets =
      (record { held = refl; short = omega arith; octets = omega arith }, (packet-IsMbuf, tt));
  rules = (built, refl, built-IsBuilt);
  taken = λ n. omega arith;
}

poll-IsSettled_example :
    IsSettled (addrs received) (poll zero_sums assoc_api zero_meta round zero_stats)
poll-IsSettled_example =
    poll-IsSettled zero_sums assoc-TableLaws zero_meta round zero_stats round-IsFair (omega arith)

abbrev ready_state : Dp assoc_api
ready_state = record ruled_state {
  ready = true;
  pool = true;
  owned0 = true;
  owned1 = true;
  started0 = true;
  started1 = true;
}

-- Two workers, of which the second cannot be launched.
abbrev two_state : Dp assoc_api
two_state = record ready_state {
  workers = worker ∷ record worker { info = record worker.info { worker_id = 1 } } ∷ [];
}

two_state-IsStartable : IsStartable two_state
two_state-IsStartable = record {
  quiet = record {
    stopped = refl;
    workers = refl;
    readers = refl;
    idle = ((refl, refl), ((refl, refl), tt));
    port0 = λ e. refl;
    port1 = λ e. refl;
  };
  some_worker = omega arith;
  few = omega arith;
  ready = refl;
  first = refl;
}

abbrev failed : RunState assoc_api
failed = record {
  main = joins 1 1 (minus eio);
  threads = parked ∷ parked ∷ [];
  dp = record two_state { ran = true; running = true; stop = true };
}

abbrev ended : RunState assoc_api
ended = record failed { main = returned (minus eio); dp = record failed.dp { running = false } }

failed-turn : Turns zero_sums zero_meta (begin_run two_state) failed
unfolding begin_run main_turn launch_worker
failed-turn = by_main (true, pos 0) failed refl

ended-turn : Turns zero_sums zero_meta failed ended
unfolding main_turn
ended-turn = by_main (true, pos 0) ended refl

failed-reached : Reaches zero_sums zero_meta (begin_run two_state) failed
failed-reached = turns (begin_run two_state) failed begins failed-turn

Reaches_stop_example :
    (failed.dp.stop ≡ true)
    × ((t : RunState assoc_api) → Turns zero_sums zero_meta failed t → t.dp.stop ≡ true)
Reaches_stop_example =
    Reaches_stop zero_sums zero_meta two_state failed two_state-IsStartable failed-reached
      (inr (inr refl))

Reaches_ends_example :
    (1 ≤ turns_left failed)
    × (IsOver ended ⊎ ((u : RunState assoc_api) × Turns zero_sums zero_meta ended u))
Reaches_ends_example =
    Reaches_ends zero_sums zero_meta two_state failed two_state-IsStartable failed-reached
      (inr (inr refl)) 1 ended (one_more 0 failed ended ended ended-turn (none_more ended))
