-- ===== src/Runtime/Layout.antt =====
-- `dp_test_worker_stats_layout` of dataplane/native/dp_runtime.c: two contexts on the stack, summed.
-- Where the array stands, the size of a context and RTE_CACHE_LINE_SIZE are arguments.
use dpdk_high_speed_flow_rou.Prelude.{
  ℕ, ◌+◌, ◌-◌, ◌^◌, ◌%◌, ◌≤◌, ◌<◌, ◌≡◌, ◌↔◌, ◌⊎◌, refl, Bool, false, not, ◌||◌, ltb, ◌==◌,
  if◌then◌else◌, ℤ, pos, minus, eio, u64, arith,
}
use dpdk_high_speed_flow_rou.Stats.{PacketStats, zero_stats, packet_stats_add}

-- The statistics of the two contexts; the rest is zero.
abbrev pub test_stats0 : PacketStats
test_stats0 = record zero_stats {
  rx = 4;
  parse_ok = 4;
  flow_hit = 4;
  action_forward = 4;
  tx_accepted = 4;
  rx_bursts = 10;
  rx_empty_polls = 8;
  tx_bursts = 4;
}

abbrev pub test_stats1 : PacketStats
test_stats1 = record zero_stats {
  rx = 6;
  parse_ok = 4;
  parse_unsupported = 1;
  parse_malformed = 1;
  route_hit = 2;
  lookup_miss = 2;
  action_forward = 1;
  action_rewrite = 1;
  action_drop = 2;
  tx_accepted = 1;
  tx_unsent = 1;
  drop = 5;
  rx_bursts = 20;
  rx_empty_polls = 15;
  tx_bursts = 2;
}

-- The test of the total: its counters, then the sums over them.
unfoldable pub is_wrong_total : PacketStats → Bool
is_wrong_total t =
    not (t.rx == 10)
    || not (t.parse_ok == 8)
    || not (t.parse_unsupported == 1)
    || not (t.parse_malformed == 1)
    || not (t.flow_hit == 4)
    || not (t.route_hit == 2)
    || not (t.lookup_miss == 2)
    || not (t.action_forward == 5)
    || not (t.action_rewrite == 1)
    || not (t.action_drop == 2)
    || not (t.tx_accepted == 5)
    || not (t.tx_unsent == 1)
    || not (t.drop == 5)
    || not (t.rx_bursts == 30)
    || not (t.rx_empty_polls == 23)
    || not (t.tx_bursts == 6)
    || not (t.rx == u64 (t.parse_ok + t.parse_unsupported + t.parse_malformed))
    || not (t.parse_ok == u64 (t.flow_hit + t.route_hit + t.lookup_miss))
    || not (t.parse_ok == u64 (t.action_drop + t.action_forward + t.action_rewrite))
    || not (u64 (t.action_forward + t.action_rewrite) == u64 (t.tx_accepted + t.tx_unsent))
    || not (t.drop == u64 (t.parse_unsupported + t.parse_malformed + t.action_drop + t.tx_unsent))

unfoldable pub test_worker_stats_layout : ℕ → ℕ → ℕ → ℤ
test_worker_stats_layout cache_line address size =
    let first = u64 address in
    let second = u64 (address + size) in
    if not (first % cache_line == 0) || ltb (u64 (second + 2 ^ 64 - first)) cache_line
    then minus eio
    else (if is_wrong_total (packet_stats_add (packet_stats_add zero_stats test_stats0) test_stats1)
        then minus eio
        else pos 0)

total_right :
    is_wrong_total (packet_stats_add (packet_stats_add zero_stats test_stats0) test_stats1) ≡ false
unfolding is_wrong_total packet_stats_add
total_right = refl

test_worker_stats_layout-tests :
    (cache_line address size : ℕ)
    → address + size < 2 ^ 64
    → test_worker_stats_layout cache_line address size
      ≡ (if not (address % cache_line == 0) || ltb size cache_line then minus eio else pos 0)
unfolding test_worker_stats_layout
test_worker_stats_layout-tests cache_line address size h =
    let first : address % 2 ^ 64 ≡ address = omega arith in
    let second : (address + size) % 2 ^ 64 ≡ address + size = omega arith in
    let between : (address + size + 2 ^ 64 - address) % 2 ^ 64 ≡ size = omega arith in
    rw (first, second, between, total_right) refl

-- For an array within the address space, the test gives 0 exactly when the first context stands at
-- a multiple of the line's size and a context is at least a line long; else it gives -EIO.
pub test_worker_stats_layout_passes :
    (cache_line address size : ℕ)
    → address + size < 2 ^ 64
    → ((test_worker_stats_layout cache_line address size ≡ pos 0)
        ↔ ((address % cache_line ≡ 0) × (cache_line ≤ size)))
      × ((test_worker_stats_layout cache_line address size ≡ pos 0)
          ⊎ (test_worker_stats_layout cache_line address size ≡ minus eio))
test_worker_stats_layout_passes cache_line address size h =
    let same = test_worker_stats_layout-tests cache_line address size h in
    ((λ e. ground arith, λ p. ground arith), ground arith)
