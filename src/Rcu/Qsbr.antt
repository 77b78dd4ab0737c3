-- ===== src/Rcu/Qsbr.antt =====
-- What the dataplane relies on of DPDK's rte_rcu_qsbr: the calls that it makes, and their documented
-- behaviour as laws.
use dpdk_high_speed_flow_rou.Prelude.{ℕ, ◌<◌, ◌≡◌, ◌≢◌, Bool, true, false}

-- `capacity` is what the variable was made for, `register` is `thread_register` and `thread_online`, `unregister` is
-- `thread_offline` and `thread_unregister`; `start` gives a token, for which `check` asks without waiting.
pub record QsbrApi : Type 1 where
  pub State : Type 0
  pub capacity : ℕ
  pub init : State
  pub register : ℕ → State → State
  pub quiescent : ℕ → State → State
  pub unregister : ℕ → State → State
  pub start : State → ℕ × State
  pub check : State → ℕ → Bool

-- `online` says which readers are, `waited` which of them have not reported since a token was given.
pub record QsbrLaws (q : QsbrApi) : Type 0 where
  pub online : q.State → ℕ → Bool
  pub waited : q.State → ℕ → ℕ → Bool
  pub online-init : (i : ℕ) → online q.init i ≡ false
  -- A reader that registers, below the capacity, is online, and the others are as before.
  pub online-register : (s : q.State) (i : ℕ) → i < q.capacity → online (q.register i s) i ≡ true
  pub online-register_other :
      (s : q.State) (i j : ℕ) → i ≢ j → online (q.register i s) j ≡ online s j
  pub waited-register :
      (s : q.State) (t i j : ℕ) → i ≢ j → waited (q.register i s) t j ≡ waited s t j
  -- A reader that comes online is not waited for by the tokens that were given before.
  pub waited-register_self : (s : q.State) (t i : ℕ) → waited (q.register i s) t i ≡ false
  -- A report is about the reader that makes it, and for every token.
  pub online-quiescent : (s : q.State) (i j : ℕ) → online (q.quiescent i s) j ≡ online s j
  pub waited-quiescent : (s : q.State) (t i : ℕ) → waited (q.quiescent i s) t i ≡ false
  pub waited-quiescent_other :
      (s : q.State) (t i j : ℕ) → i ≢ j → waited (q.quiescent i s) t j ≡ waited s t j
  -- A reader that leaves is offline.
  pub online-unregister : (s : q.State) (i : ℕ) → online (q.unregister i s) i ≡ false
  pub online-unregister_other :
      (s : q.State) (i j : ℕ) → i ≢ j → online (q.unregister i s) j ≡ online s j
  pub waited-unregister :
      (s : q.State) (t i j : ℕ) → i ≢ j → waited (q.unregister i s) t j ≡ waited s t j
  -- A new token waits for every reader that is online.
  pub online-start : (s : q.State) (i : ℕ) → online (q.start s).1 i ≡ online s i
  pub waited-start :
      (s : q.State) (i : ℕ) → online s i ≡ true → waited (q.start s).1 (q.start s).0 i ≡ true
  -- Only readers that are online are waited for, and the check passes when none is left.
  pub waited-online : (s : q.State) (t i : ℕ) → waited s t i ≡ true → online s i ≡ true
  pub check-passes : (s : q.State) (t i : ℕ) → q.check s t ≡ true → waited s t i ≡ false
  pub check_complete : (s : q.State) (t : ℕ) → ((i : ℕ) → waited s t i ≡ false) → q.check s t ≡ true
