-- ===== src/Examples/Ports.antt =====
-- The setup and the teardown of two ports, with two workers on the lcores 0 and 3.
use dpdk_high_speed_flow_rou.Prelude.{◌≡◌, ◌↔◌, refl, true, [], ◌∷◌, none, pos, inl}
use dpdk_high_speed_flow_rou.Tables.Assoc.{assoc_api}
use dpdk_high_speed_flow_rou.Snapshot.Types.{granted}
use dpdk_high_speed_flow_rou.State.{Dp}
use dpdk_high_speed_flow_rou.Runtime.{runtime_cleanup}
use dpdk_high_speed_flow_rou.Runtime.Cleanup.{IsReleased}
use dpdk_high_speed_flow_rou.Port.Workers.{setup_workers, assign_lcores, bind_queues}
use dpdk_high_speed_flow_rou.Port.Setup.{Platform, EthPort, dataplane_setup}
use dpdk_high_speed_flow_rou.Port.Teardown.{Stops, dataplane_teardown}
use dpdk_high_speed_flow_rou.Port.Assigned.{IsAssigned, setup_workers-IsAssigned}
use dpdk_high_speed_flow_rou.Port.Quiet.{IsQuiet}
use dpdk_high_speed_flow_rou.Port.Lifecycle.{Outcome, dataplane_setup-Outcome}
use dpdk_high_speed_flow_rou.Port.Released.{dataplane_teardown-IsReleased}
use dpdk_high_speed_flow_rou.Worker.Stop.{dataplane_request_stop}
use dpdk_high_speed_flow_rou.Port.Requested.{dataplane_setup-dataplane_request_stop}
use dpdk_high_speed_flow_rou.Port.Shutdown.{runtime_cleanup-dataplane_teardown}
use dpdk_high_speed_flow_rou.Examples.Data.{ruled_state}

abbrev two_lcores : Dp assoc_api
two_lcores = record ruled_state { info = record ruled_state.info { lcore_count = 2 } }

two_lcores-IsQuiet : IsQuiet two_lcores
two_lcores-IsQuiet = record {
  stopped = refl;
  workers = refl;
  readers = refl;
  idle = ((refl, refl), tt);
  port0 = λ e. absurd (cc);
  port1 = λ e. absurd (cc);
}

abbrev tap_port : EthPort
tap_port = record {
  info_get = pos 0;
  is_tap = true;
  max_rx_queues = 16;
  max_tx_queues = 16;
  configure = pos 0;
  adjust = pos 0;
  rx_desc = 256;
  tx_desc = 256;
  rx_queue_setup = λ q. pos 0;
  tx_queue_setup = λ q. pos 0;
  start = pos 0;
}

abbrev platform : Platform
platform = record {
  lcores = 0 ∷ 3 ∷ [];
  socket_of = λ l. pos 0;
  rx_found = (pos 0, 0);
  tx_found = (pos 0, 1);
  pool = granted;
  eth0 = tap_port;
  eth1 = tap_port;
  failing_queue = none;
}

abbrev stops : Stops
stops = record { stop0 = pos 0; close0 = pos 0; stop1 = pos 0; close1 = pos 0; in_use = 0 }

setup_workers-two :
    (setup_workers assoc_api platform.lcores platform.socket_of 2 two_lcores).0 ≡ pos 0
unfolding setup_workers assign_lcores bind_queues
setup_workers-two = refl

setup_workers-IsAssigned_example :
    IsAssigned platform.lcores platform.socket_of 2 0
      (pos 0)
      (setup_workers assoc_api platform.lcores platform.socket_of 2 two_lcores).1.workers
setup_workers-IsAssigned_example =
    setup_workers-IsAssigned assoc_api platform.socket_of platform.lcores 2 two_lcores
      setup_workers-two

dataplane_setup-Outcome_example :
    Outcome assoc_api two_lcores (dataplane_setup assoc_api platform true 2 two_lcores)
dataplane_setup-Outcome_example =
    dataplane_setup-Outcome assoc_api platform true 2 two_lcores two_lcores-IsQuiet

dataplane_teardown-IsReleased_example :
    ((dataplane_teardown assoc_api stops two_lcores).0 ≡ pos 0)
    ↔ IsReleased (dataplane_teardown assoc_api stops two_lcores).1
dataplane_teardown-IsReleased_example =
    dataplane_teardown-IsReleased assoc_api stops two_lcores
      (inl refl, inl refl, inl refl, inl refl) two_lcores-IsQuiet

runtime_cleanup-dataplane_teardown_example :
    let after =
      dataplane_teardown assoc_api stops (dataplane_setup assoc_api platform true 2 two_lcores).1 in
    (after.0 ≡ pos 0) × ((runtime_cleanup assoc_api (pos 0) after.1).0 ≡ pos 0)
runtime_cleanup-dataplane_teardown_example =
    runtime_cleanup-dataplane_teardown assoc_api stops platform true 2 (pos 0) two_lcores refl
      two_lcores-IsQuiet (refl, refl, refl, refl, refl)

dataplane_setup-dataplane_request_stop_example :
    (dataplane_setup assoc_api platform true 2 (dataplane_request_stop assoc_api two_lcores)).1.stop
    ≡ true
dataplane_setup-dataplane_request_stop_example =
    dataplane_setup-dataplane_request_stop assoc_api platform true 2 two_lcores
