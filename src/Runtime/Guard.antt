-- ===== src/Runtime/Guard.antt =====
-- `dp_test_runtime_cleanup_guard` of dataplane/native/dp_runtime.c: the cleanup is tried with one
-- resource made alive, and the state is put back. The sentinel that stands for live rules is an
-- argument, as is the result of `rte_eal_cleanup`.
use dpdk_high_speed_flow_rou.Prelude.{
  ℕ, ◌≡◌, refl, ap, Bool, true, ◌==◌, ltb, not, ◌&&◌, ◌||◌, Bool-cases, inl, inr, if◌then◌else◌,
  some, ℤ, minus, einval, ebusy, arith,
}
use dpdk_high_speed_flow_rou.Tables.{TableApi}
use dpdk_high_speed_flow_rou.Snapshot.Types.{Snapshot}
use dpdk_high_speed_flow_rou.State.{Dp}
use dpdk_high_speed_flow_rou.Runtime.{runtime_cleanup}
use dpdk_high_speed_flow_rou.Runtime.Cleanup.{IsReleased, runtime_cleanup-IsReleased}

abbrev pub live_worker : ℕ
live_worker = 1

abbrev pub live_port : ℕ
live_port = 2

abbrev pub live_mempool : ℕ
live_mempool = 3

abbrev pub live_active_rules : ℕ
live_active_rules = 4

abbrev pub live_qsbr : ℕ
live_qsbr = 5

abbrev pub live_writer : ℕ
live_writer = 6

abbrev pub live_reader : ℕ
live_reader = 7

unfoldable pub is_live : ℕ → Bool
is_live resource =
    resource == live_worker
    || (resource == live_port
        || (resource == live_mempool
            || (resource == live_active_rules
                || (resource == live_qsbr
                    || (resource == live_writer || resource == live_reader)))))

is_live_range : (resource : ℕ) → is_live resource ≡ (ltb 0 resource && ltb resource 8)
unfolding is_live
is_live_range resource = ground arith

module _ (api : TableApi) where
  -- The cases of the `switch`.
  unfoldable pub make_alive : Snapshot api → ℕ → Dp api → Dp api
  make_alive sentinel resource dp =
      if resource == live_worker
      then record dp { active_workers = 1 }
      else (if resource == live_port
          then record dp { owned0 = true }
          else (if resource == live_mempool
              then record dp { pool = true }
              else (if resource == live_active_rules
                  then record dp { active_rules = some sentinel }
                  else (if resource == live_qsbr
                      then record dp { rules_qsbr = true }
                      else (if resource == live_writer
                          then record dp { writer_active = true }
                          else (if resource == live_reader
                              then record dp { registered_readers = 1 }
                              else dp))))))

  -- What is saved before the trial is put back behind it.
  unfoldable pub restored : Dp api → Dp api → Dp api
  restored before dp = record dp {
    initialized = before.initialized;
    running = before.running;
    owned0 = before.owned0;
    pool = before.pool;
    rules_configured = before.rules_configured;
    active_rules = before.active_rules;
    rules_qsbr = before.rules_qsbr;
    writer_active = before.writer_active;
    active_workers = before.active_workers;
    registered_readers = before.registered_readers;
  }

  unfoldable pub test_runtime_cleanup_guard : Snapshot api → ℤ → ℕ → Dp api → ℤ × Dp api
  unfolding is_live make_alive restored
  test_runtime_cleanup_guard sentinel cleanup_result resource dp =
      if not (is_live resource)
      then (minus einval, dp)
      else let (ret, dp₁) =
          runtime_cleanup api cleanup_result
            (make_alive sentinel resource (record dp { initialized = true })) in
        (ret, restored dp dp₁)

  make_alive-IsReleased :
      (sentinel : Snapshot api) (resource : ℕ) (dp : Dp api)
      → is_live resource ≡ true
      → ¬ IsReleased (make_alive sentinel resource dp)
  unfolding is_live make_alive
  make_alive-IsReleased sentinel resource dp live r =
      ground (arith, r.workers, r.ports, r.pool, r.rules, r.qsbr, r.writer, r.readers)

  make_alive-initialized :
      (sentinel : Snapshot api) (resource : ℕ) (dp : Dp api)
      → (make_alive sentinel resource dp).initialized ≡ dp.initialized
  unfolding make_alive
  make_alive-initialized sentinel resource dp = ground arith

  restored-make_alive :
      (sentinel : Snapshot api) (resource : ℕ) (dp : Dp api)
      → restored dp (make_alive sentinel resource (record dp { initialized = true })) ≡ dp
  unfolding make_alive restored
  restored-make_alive sentinel resource dp = ground arith

  -- Whatever the state, each of the seven resources alone keeps the cleanup from ending the EAL: the
  -- code is -EBUSY. For any other number the code is -EINVAL. The state is as it was in every case.
  pub test_runtime_cleanup_guard_refuses :
      (sentinel : Snapshot api) (cleanup_result : ℤ) (resource : ℕ) (dp : Dp api)
      → test_runtime_cleanup_guard sentinel cleanup_result resource dp
        ≡ (if ltb 0 resource && ltb resource 8 then minus ebusy else minus einval, dp)
  unfolding test_runtime_cleanup_guard
  test_runtime_cleanup_guard_refuses sentinel cleanup_result resource dp =
      elim (Bool-cases (is_live resource)) [
        | inl live ↦
            let alive = record dp { initialized = true } in
            let e =
              (runtime_cleanup-IsReleased api cleanup_result (make_alive sentinel resource alive)
                  (make_alive-initialized sentinel resource alive)).2
                (make_alive-IsReleased sentinel resource alive live) in
            rw (← is_live_range resource, live, e)
              (ap (λ d. (minus ebusy, d)) (restored-make_alive sentinel resource dp))
        | inr dead ↦ rw (← is_live_range resource, dead) refl
      ]
