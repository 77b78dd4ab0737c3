-- ===== src/Port/Workers.antt =====
-- `setup_workers` of dataplane/native/dp_port.c. The lcores that RTE_LCORE_FOREACH runs over, and the
-- socket of each, are arguments.
use dpdk_high_speed_flow_rou.Prelude.{
  ℕ, suc, Bool, false, not, ◌||◌, List, [], ◌∷◌, ltb, leb, ◌==◌, if◌then◌else◌, set, replicate, ℤ,
  pos, negsuc, is_neg, minus, u16, einval, exdev,
}
use dpdk_high_speed_flow_rou.Tables.{TableApi}
use dpdk_high_speed_flow_rou.Stats.{zero_stats}
use dpdk_high_speed_flow_rou.State.{Dp, WorkerInfo, WorkerCtx, max_workers}

abbrev pub same_int : ℤ → ℤ → Bool
same_int (pos a) (pos b) = a == b
same_int (negsuc a) (negsuc b) = a == b
same_int _ _ = false

unfoldable pub validate_worker_socket : ℤ → ℤ → ℤ
validate_worker_socket baseline worker = if same_int baseline worker then pos 0 else minus exdev

-- A context after the `memset`, with the first two fields of its info.
abbrev pub worker_on : ℕ → ℕ → WorkerCtx
worker_on worker_id lcore_id = record {
  info = record { worker_id = worker_id; lcore_id = lcore_id; rx_queue_id = 0; tx_queue_id = 0 };
  stats = zero_stats;
  result = pos 0;
  launched = false;
  reader_registered = false;
}

-- The loop over the lcores: the code, `next`, and the contexts.
unfoldable pub assign_lcores : ℕ → ℕ → List ℕ → ℕ → List WorkerCtx → ℤ × (ℕ × List WorkerCtx)
assign_lcores main worker_count [] next ws = (pos 0, (next, ws))
assign_lcores main worker_count (lcore ∷ lcores) next ws =
    let skip = assign_lcores main worker_count lcores next ws in
    let take_it =
      assign_lcores main worker_count lcores (suc next) (set ws next (worker_on next lcore)) in
    if lcore == main
    then skip
    else (if leb worker_count next then (minus einval, (next, ws)) else take_it)

-- Worker `i` with its queues, not launched.
abbrev pub with_queues : ℕ → WorkerCtx → WorkerCtx
with_queues i w = record w {
  info = record w.info { rx_queue_id = u16 i; tx_queue_id = u16 i };
  result = pos 0;
  launched = false;
  reader_registered = false;
}

-- The loop over the workers from index `i` on, which also fills `dp.info.workers`.
unfoldable pub bind_queues :
    ℤ → (ℕ → ℤ) → List WorkerCtx → ℕ → List WorkerInfo → ℤ × (List WorkerCtx × List WorkerInfo)
unfolding validate_worker_socket
bind_queues baseline socket_of [] i infos = (pos 0, ([], infos))
bind_queues baseline socket_of (w ∷ ws) i infos =
    let (ret, (rest, filled)) =
      bind_queues baseline socket_of ws (suc i) (set infos i (with_queues i w).info) in
    if is_neg (validate_worker_socket baseline (socket_of w.info.lcore_id))
    then (minus exdev, (w ∷ ws, infos))
    else (ret, (with_queues i w ∷ rest, filled))

module _ (api : TableApi) where
  -- The end of `setup_workers`, from the result of the loop over the lcores.
  unfoldable pub assigned : (ℕ → ℤ) → ℕ → ℤ × (ℕ × List WorkerCtx) → Dp api → ℤ × Dp api
  assigned socket_of worker_count (ret, (next, ws)) dp =
      if is_neg ret || not (next == worker_count)
      then (minus einval, record dp { workers = ws })
      else let (code, (bound, infos)) =
          bind_queues dp.info.socket_id socket_of ws 0 dp.info.workers in
        (code, record dp { workers = bound; info = record dp.info { workers = infos } })

  -- The contexts are those in use, `worker_count` of them.
  unfoldable pub setup_workers : List ℕ → (ℕ → ℤ) → ℕ → Dp api → ℤ × Dp api
  unfolding assigned
  setup_workers lcores socket_of worker_count dp =
      if worker_count == 0
        || (ltb max_workers worker_count || not (dp.info.lcore_count == worker_count))
      then (minus einval, dp)
      else let zeroed = replicate worker_count (worker_on 0 0) in
        let main = dp.info.main_lcore in
        assigned socket_of worker_count
          (assign_lcores main worker_count lcores 1 (set zeroed 0 (worker_on 0 main)))
          (record dp { info = record dp.info { worker_count = worker_count } })
