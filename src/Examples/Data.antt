-- ===== src/Examples/Data.antt =====
-- The data of the concrete inputs: a TCP frame from 10.0.0.1:1234 to 10.0.0.2:80, a flow rule that
-- forwards it, a route that drops 10.0.0.0/8, and states with and without these rules.
use dpdk_high_speed_flow_rou.Prelude.{
  ℕ, ◌≡◌, refl, true, false, List, [], ◌∷◌, replicate, none, some, arith, pos, inl,
}
use dpdk_high_speed_flow_rou.Packet.{Meta, Mbuf, IsMbuf}
use dpdk_high_speed_flow_rou.Packet
use dpdk_high_speed_flow_rou.Parser.{zero_meta, parse_frame}
use dpdk_high_speed_flow_rou.Parser
use dpdk_high_speed_flow_rou.Parser.Frame.{IsFlowFrame}
use dpdk_high_speed_flow_rou.Rules.{
  Action, FlowRule, RouteRule, validate_action, flow_rejected, route_rejected, has_host_bits,
  flow_key_of_rule, flow_key_from_meta,
}
use dpdk_high_speed_flow_rou.Tables.Assoc.{assoc_api}
use dpdk_high_speed_flow_rou.Snapshot.Types.{Ledger, RuleStats, World, Grants, granted, Snapshot}
use dpdk_high_speed_flow_rou.Snapshot.Loops.{add_flow, add_flows, add_route, add_routes}
use dpdk_high_speed_flow_rou.Snapshot.Build.{
  alloc_actions, create_flow_table, create_route_table, fill_flows, fill_routes, build_steps,
  finish_build, build_granted, snapshot_build,
}
use dpdk_high_speed_flow_rou.Lookup.{lookup_packet}
use dpdk_high_speed_flow_rou.Action.{Checksums}
use dpdk_high_speed_flow_rou.Stats.{PacketStats, zero_stats}
use dpdk_high_speed_flow_rou.Worker.{Processed, passed, process_packet, action_at}
use dpdk_high_speed_flow_rou.State.{Dp, PortStats, WorkerCtx}
use dpdk_high_speed_flow_rou.Control.{RuleArrays}
use dpdk_high_speed_flow_rou.Control.Lifetime.{IsKept}

abbrev pub frame : List ℕ
frame =
    0 ∷ 0 ∷ 0 ∷ 0 ∷ 0 ∷ 0 ∷ 0 ∷ 0 ∷ 0 ∷ 0 ∷ 0 ∷ 0 ∷ 0x08 ∷ 0x00 ∷ 0x45 ∷ 0 ∷ 0 ∷ 40 ∷ 0 ∷ 0 ∷ 0 ∷ 0
    ∷ 64 ∷ 6 ∷ 0 ∷ 0 ∷ 10 ∷ 0 ∷ 0 ∷ 1 ∷ 10 ∷ 0 ∷ 0 ∷ 2 ∷ 0x04 ∷ 0xd2 ∷ 0 ∷ 80 ∷ 0 ∷ 0 ∷ 0 ∷ 0 ∷ 0
    ∷ 0 ∷ 0 ∷ 0 ∷ 0x50 ∷ 0 ∷ 0 ∷ 0 ∷ 0 ∷ 0 ∷ 0 ∷ 0 ∷ []

abbrev pub packet : Mbuf
packet = record { addr = 7; nb_segs = 1; pkt_len = 54; data_len = 54; bytes = frame }

pub packet-IsMbuf : IsMbuf packet
packet-IsMbuf = omega arith

pub frame-IsFlowFrame : IsFlowFrame frame
frame-IsFlowFrame = record {
  frame = record {
    fixed = omega arith;
    ipv4 = refl;
    version = refl;
    least = omega arith;
    header = omega arith;
    total = omega arith;
  };
  whole = refl;
  ports = inl (refl, record { fixed = omega arith; least = omega arith; fits = omega arith });
}

abbrev pub plain_action : ℕ → Action
plain_action t = record {
  type = t;
  rewrite_mask = 0;
  reserved = 0;
  src_ipv4 = 0;
  dst_ipv4 = 0;
  src_port = 0;
  dst_port = 0;
}

abbrev pub flow : FlowRule
flow = record {
  src_ipv4 = 0x0a000001;
  dst_ipv4 = 0x0a000002;
  src_port = 1234;
  dst_port = 80;
  l4_proto = 6;
  reserved0 = 0;
  reserved1 = 0;
  reserved2 = 0;
  action = plain_action 1;
}

abbrev pub route : RouteRule
route = record {
  prefix = 0x0a000000;
  depth = 8;
  reserved0 = 0;
  reserved1 = 0;
  reserved2 = 0;
  action = plain_action 0;
}

abbrev pub nothing : Ledger
nothing = record { snapshots = 0; action_stores = 0; flow_tables = 0; route_tables = 0 }

abbrev pub no_stats : RuleStats
no_stats = record {
  rules_generation = 0;
  rules_publish_success = 0;
  rules_publish_failed = 0;
  rules_reclaimed = 0;
  flow_table_freed = 0;
  route_table_freed = 0;
  action_store_freed = 0;
  snapshot_freed = 0;
  qsbr_freed = 0;
}

abbrev pub world : World
world = record { ledger = nothing; stats = no_stats }

abbrev pub all_granted : Grants
all_granted = record {
  snapshot = granted;
  actions = granted;
  flow_table = granted;
  route_table = granted;
}

abbrev pub built : Snapshot assoc_api
built = record {
  flow_table = some ((flow_key_of_rule flow, 0) ∷ []);
  route_table = some (record { prefix = 0x0a000000; depth = 8; next_hop = 1 } ∷ []);
  actions = some (plain_action 1 ∷ plain_action 0 ∷ []);
  action_count = 2;
  generation = 1;
}

pub snapshot_build-built :
    (snapshot_build assoc_api all_granted (some (flow ∷ [])) 1 (some (route ∷ [])) 1 1 world).result
    ≡ some built
unfolding snapshot_build build_granted finish_build build_steps alloc_actions create_flow_table
    create_route_table fill_flows fill_routes add_flows add_flow add_routes add_route flow_rejected
    route_rejected has_host_bits validate_action
snapshot_build-built = refl

-- The same rules again, as the next generation.
abbrev pub rebuilt : Snapshot assoc_api
rebuilt = record built { generation = 2 }

pub snapshot_build-rebuilt :
    (snapshot_build assoc_api all_granted (some (flow ∷ [])) 1 (some (route ∷ [])) 1 2 world).result
    ≡ some rebuilt
unfolding snapshot_build build_granted finish_build build_steps alloc_actions create_flow_table
    create_route_table fill_flows fill_routes add_flows add_flow add_routes add_route flow_rejected
    route_rejected has_host_bits validate_action
snapshot_build-rebuilt = refl

abbrev pub zero_sums : Checksums
zero_sums = record { ipv4_cksum = λ d l2. 0; udptcp_cksum = λ d l2 l4. 0 }

-- The packet has been received, and waits.
abbrev pub one_waiting : PacketStats
one_waiting = record zero_stats { rx = 1 }

abbrev pub forwarded : Processed
forwarded =
    passed packet (record zero_stats { rx = 1; parse_ok = 1; flow_hit = 1; action_forward = 1 })

pub process_packet-forwarded :
    process_packet zero_sums assoc_api (some built) zero_meta packet one_waiting ≡ some forwarded
unfolding process_packet action_at parse_frame Parser.parse_ipv4 Parser.parse_l4 Parser.parse_tcp
    Packet.load8 Packet.load16 Packet.load32 lookup_packet flow_key_of_rule flow_key_from_meta
process_packet-forwarded = refl

-- A rewrite of both ports.
abbrev pub rewriting : Action
rewriting = record (plain_action 2) { rewrite_mask = 12; src_port = 4321; dst_port = 8080 }

abbrev pub worker : WorkerCtx
worker = record {
  info = record { worker_id = 0; lcore_id = 0; rx_queue_id = 0; tx_queue_id = 0 };
  stats = zero_stats;
  result = pos 0;
  launched = false;
  reader_registered = false;
}

abbrev pub no_port_stats : PortStats
no_port_stats = record { ports_closed = 0; pool_in_use = 0; pool_freed = 0 }

-- After init and before any rules.
abbrev pub bare_state : Dp assoc_api
bare_state = record {
  attempted = true;
  initialized = true;
  rules_configured = false;
  ready = false;
  running = false;
  ran = false;
  stop = false;
  pool = false;
  active_rules = none;
  rules_qsbr = false;
  writer_active = false;
  active_workers = 0;
  registered_readers = 0;
  port0 = 0;
  port1 = 0;
  owned0 = false;
  owned1 = false;
  started0 = false;
  started1 = false;
  workers = worker ∷ [];
  info = record {
    initialized = 1;
    main_lcore = 0;
    lcore_count = 1;
    rx_port = 0;
    tx_port = 0;
    rx_desc = 0;
    tx_desc = 0;
    nb_mbuf = 0;
    cache_size = 0;
    socket_id = pos 0;
    worker_count = 1;
    workers = replicate 4 worker.info;
  };
  port_stats = no_port_stats;
  world = world;
}

-- With generation 1 active.
abbrev pub ruled_state : Dp assoc_api
ruled_state = record bare_state {
  rules_configured = true;
  rules_qsbr = true;
  active_rules = some built;
  world = record {
    ledger = record { snapshots = 1; action_stores = 1; flow_tables = 1; route_tables = 1 };
    stats = record no_stats { rules_generation = 1; rules_publish_success = 1 };
  };
}

pub bare_state-IsKept : IsKept assoc_api nothing bare_state
bare_state-IsKept = record { holds = refl; present = refl }

pub ruled_state-IsKept : IsKept assoc_api nothing ruled_state
ruled_state-IsKept = record { holds = (omega arith, refl); present = refl }

abbrev pub arrays : RuleArrays
arrays = record {
  flows = some (flow ∷ []);
  flow_count = 1;
  routes = some (route ∷ []);
  route_count = 1;
}

abbrev pub two_forwarded : PacketStats
two_forwarded = record zero_stats { rx = 2; parse_ok = 2; flow_hit = 2; action_forward = 2 }

-- A burst whose first packet is cut short, so that the second takes its place.
abbrev pub received : List Mbuf
received =
    record { addr = 8; nb_segs = 1; pkt_len = 2; data_len = 2; bytes = 0 ∷ 0 ∷ [] } ∷ packet ∷ []
