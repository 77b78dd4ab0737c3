-- ===== src/Stats.antt =====
-- `struct dp_packet_stats` of dataplane/native/dp_api.h and the sum of dp_runtime.c. The counters are
-- uint64_t and wrap.
use dpdk_high_speed_flow_rou.Prelude.{ℕ, ◌+◌, u64}

pub record PacketStats : Type 0 where
  pub rx : ℕ
  pub parse_ok : ℕ
  pub parse_unsupported : ℕ
  pub parse_malformed : ℕ
  pub flow_hit : ℕ
  pub route_hit : ℕ
  pub lookup_miss : ℕ
  pub action_drop : ℕ
  pub action_forward : ℕ
  pub action_rewrite : ℕ
  pub tx_accepted : ℕ
  pub tx_unsent : ℕ
  pub drop : ℕ
  pub rx_bursts : ℕ
  pub rx_empty_polls : ℕ
  pub tx_bursts : ℕ

abbrev pub zero_stats : PacketStats
zero_stats = record {
  rx = 0;
  parse_ok = 0;
  parse_unsupported = 0;
  parse_malformed = 0;
  flow_hit = 0;
  route_hit = 0;
  lookup_miss = 0;
  action_drop = 0;
  action_forward = 0;
  action_rewrite = 0;
  tx_accepted = 0;
  tx_unsent = 0;
  drop = 0;
  rx_bursts = 0;
  rx_empty_polls = 0;
  tx_bursts = 0;
}

-- `counter += n`
abbrev pub add64 : ℕ → ℕ → ℕ
add64 counter n = u64 (counter + n)

-- `dp_packet_stats_add`
unfoldable pub packet_stats_add : PacketStats → PacketStats → PacketStats
packet_stats_add total local = record {
  rx = add64 total.rx local.rx;
  parse_ok = add64 total.parse_ok local.parse_ok;
  parse_unsupported = add64 total.parse_unsupported local.parse_unsupported;
  parse_malformed = add64 total.parse_malformed local.parse_malformed;
  flow_hit = add64 total.flow_hit local.flow_hit;
  route_hit = add64 total.route_hit local.route_hit;
  lookup_miss = add64 total.lookup_miss local.lookup_miss;
  action_drop = add64 total.action_drop local.action_drop;
  action_forward = add64 total.action_forward local.action_forward;
  action_rewrite = add64 total.action_rewrite local.action_rewrite;
  tx_accepted = add64 total.tx_accepted local.tx_accepted;
  tx_unsent = add64 total.tx_unsent local.tx_unsent;
  drop = add64 total.drop local.drop;
  rx_bursts = add64 total.rx_bursts local.rx_bursts;
  rx_empty_polls = add64 total.rx_empty_polls local.rx_empty_polls;
  tx_bursts = add64 total.tx_bursts local.tx_bursts;
}
