-- ===== src/Rules.antt =====
-- The rules of dataplane/native/dp_api.h, the flow key of dp_lookup.h, and the checks of dp_lookup.c
-- on one rule. An array of three reserved bytes is three fields.
pub mod Mask
use dpdk_high_speed_flow_rou.Prelude.{
  ℕ, ◌+◌, ◌-◌, ◌*◌, ◌^◌, Bool, not, ◌&&◌, ◌||◌, bit_and, u32, ltb, ◌==◌, if◌then◌else◌, ℤ, pos,
  minus, einval,
}
use dpdk_high_speed_flow_rou.Packet.{Meta}
use dpdk_high_speed_flow_rou.Parser.{ipproto_tcp, ipproto_udp}

-- `enum dp_action_type`
abbrev pub action_drop : ℕ
action_drop = 0

abbrev pub action_forward : ℕ
action_forward = 1

abbrev pub action_rewrite : ℕ
action_rewrite = 2

-- `enum dp_rewrite_mask`
abbrev pub rewrite_src_ipv4 : ℕ
rewrite_src_ipv4 = 1

abbrev pub rewrite_dst_ipv4 : ℕ
rewrite_dst_ipv4 = 2

abbrev pub rewrite_src_port : ℕ
rewrite_src_port = 4

abbrev pub rewrite_dst_port : ℕ
rewrite_dst_port = 8

abbrev pub max_flow_rules : ℕ
max_flow_rules = 1024

abbrev pub max_route_rules : ℕ
max_route_rules = 1024

-- `struct dp_rule_action`
pub record Action : Type 0 where
  pub type : ℕ  -- uint8_t
  pub rewrite_mask : ℕ  -- uint8_t
  pub reserved : ℕ  -- uint16_t
  pub src_ipv4 : ℕ  -- uint32_t
  pub dst_ipv4 : ℕ  -- uint32_t
  pub src_port : ℕ  -- uint16_t
  pub dst_port : ℕ  -- uint16_t

-- `struct dp_flow_rule`
pub record FlowRule : Type 0 where
  pub src_ipv4 : ℕ
  pub dst_ipv4 : ℕ
  pub src_port : ℕ
  pub dst_port : ℕ
  pub l4_proto : ℕ
  pub reserved0 : ℕ
  pub reserved1 : ℕ
  pub reserved2 : ℕ
  pub action : Action

-- `struct dp_route_rule`
pub record RouteRule : Type 0 where
  pub prefix : ℕ  -- uint32_t
  pub depth : ℕ  -- uint8_t
  pub reserved0 : ℕ
  pub reserved1 : ℕ
  pub reserved2 : ℕ
  pub action : Action

-- `struct dp_flow_key`: its 16 bytes are what the hash table compares.
pub record FlowKey : Type 0 where
  pub src_ipv4 : ℕ
  pub dst_ipv4 : ℕ
  pub src_port : ℕ
  pub dst_port : ℕ
  pub l4_proto : ℕ
  pub reserved0 : ℕ
  pub reserved1 : ℕ
  pub reserved2 : ℕ

abbrev pub same_key : FlowKey → FlowKey → Bool
same_key k j =
    k.src_ipv4 == j.src_ipv4
    && (k.dst_ipv4 == j.dst_ipv4
        && (k.src_port == j.src_port
            && (k.dst_port == j.dst_port
                && (k.l4_proto == j.l4_proto
                    && (k.reserved0 == j.reserved0
                        && (k.reserved1 == j.reserved1 && k.reserved2 == j.reserved2))))))

unfoldable pub flow_key_from_meta : Meta → FlowKey
flow_key_from_meta m = record {
  src_ipv4 = m.src_ipv4;
  dst_ipv4 = m.dst_ipv4;
  src_port = m.src_port;
  dst_port = m.dst_port;
  l4_proto = m.l4_proto;
  reserved0 = 0;
  reserved1 = 0;
  reserved2 = 0;
}

-- The key under which the builder stores a flow.
unfoldable pub flow_key_of_rule : FlowRule → FlowKey
flow_key_of_rule f = record {
  src_ipv4 = f.src_ipv4;
  dst_ipv4 = f.dst_ipv4;
  src_port = f.src_port;
  dst_port = f.dst_port;
  l4_proto = f.l4_proto;
  reserved0 = 0;
  reserved1 = 0;
  reserved2 = 0;
}

abbrev pub valid_mask : ℕ
valid_mask = rewrite_src_ipv4 + rewrite_dst_ipv4 + rewrite_src_port + rewrite_dst_port

-- `~valid_mask` is taken on `int`: all bits but those of the mask.
unfoldable pub validate_action : Action → ℤ
validate_action a =
    if not (a.reserved == 0)
    then minus einval
    else (if a.type == action_drop || a.type == action_forward
        then (if a.rewrite_mask == 0 then pos 0 else minus einval)
        else (if not (a.type == action_rewrite)
            then minus einval
            else (if a.rewrite_mask == 0
                  || not (bit_and a.rewrite_mask (2 ^ 32 - 1 - valid_mask) == 0)
                then minus einval
                else pos 0)))

-- The first test of the flow loop of `dp_snapshot_build`.
unfoldable pub flow_rejected : FlowRule → Bool
flow_rejected f =
    not (f.l4_proto == ipproto_tcp) && not (f.l4_proto == ipproto_udp)
    || (not (f.reserved0 == 0) || (not (f.reserved1 == 0) || not (f.reserved2 == 0)))

-- The tests of the route loop: depth and reserved bytes, then host bits under the mask.
unfoldable pub route_rejected : RouteRule → Bool
route_rejected r =
    r.depth == 0
    || ltb 32 r.depth
    || (not (r.reserved0 == 0) || (not (r.reserved1 == 0) || not (r.reserved2 == 0)))

-- `UINT32_MAX << (32 - depth)`
unfoldable pub route_mask : ℕ → ℕ
route_mask depth = u32 ((2 ^ 32 - 1) * 2 ^ (32 - depth))

unfoldable pub has_host_bits : RouteRule → Bool
unfolding route_mask
has_host_bits r = not (bit_and r.prefix (route_mask r.depth) == r.prefix)
