-- ===== src/Runtime/Cleanup.antt =====
-- When `dp_runtime_cleanup` may end the EAL.
use dpdk_high_speed_flow_rou.Prelude.{
  ◌≡◌, refl, ◌↔◌, true, false, List, [], ◌∷◌, none, All, arith, ℤ, minus, ebusy,
}
use dpdk_high_speed_flow_rou.Tables.{TableApi}
use dpdk_high_speed_flow_rou.State.{Dp, WorkerCtx}
use dpdk_high_speed_flow_rou.Runtime.{all_idle, runtime_cleanup}

abbrev pub IsIdle : WorkerCtx → Type 0
IsIdle w = (w.launched ≡ false) × (w.reader_registered ≡ false)

-- Nothing of the dataplane is alive.
pub record IsReleased {api : TableApi} (dp : Dp api) : Type 0 where
  pub stopped : dp.running ≡ false
  pub workers : dp.active_workers ≡ 0
  pub readers : dp.registered_readers ≡ 0
  pub idle : All IsIdle dp.workers
  pub pool : dp.pool ≡ false
  pub ports :
      (dp.owned0 ≡ false) × (dp.owned1 ≡ false) × (dp.started0 ≡ false) × (dp.started1 ≡ false)
  pub rules : dp.active_rules ≡ none
  pub qsbr : dp.rules_qsbr ≡ false
  pub writer : dp.writer_active ≡ false
  pub unset : dp.rules_configured ≡ false

pub all_idle-All : (ws : List WorkerCtx) → (all_idle ws ≡ true) ↔ All IsIdle ws
unfolding all_idle
all_idle-All [] = (λ h. tt, λ h. refl)
all_idle-All (w ∷ ws) =
    (λ h. ground (arith, (all_idle-All ws).0), λ a. ground (arith, (all_idle-All ws).1))

-- An initialised runtime is shut down exactly when nothing is alive, with the result of the EAL's
-- cleanup; otherwise the code is -EBUSY and nothing changes.
pub runtime_cleanup-IsReleased :
    (api : TableApi) (result : ℤ) (dp : Dp api)
    → dp.initialized ≡ true
    → (((runtime_cleanup api result dp).1.initialized ≡ false) ↔ IsReleased dp)
      × (IsReleased dp → (runtime_cleanup api result dp).0 ≡ result)
      × (¬ IsReleased dp → runtime_cleanup api result dp ≡ (minus ebusy, dp))
unfolding runtime_cleanup
runtime_cleanup-IsReleased api result dp on = (
  (λ h. ground (arith, all_idle-All dp.workers), λ r. ground (arith, all_idle-All dp.workers)),
  λ r. ground (arith, all_idle-All dp.workers),
  λ n. ground (arith, all_idle-All dp.workers),
)
