-- ===== src/Rcu/Simple.antt =====
-- A QSBR variable for `size` readers that satisfies the laws: each token keeps the readers that are
-- still to report.
use dpdk_high_speed_flow_rou.Prelude.{
  ℕ, zero, suc, ◌≤◌, ◌<◌, ◌≡◌, refl, Bool, true, false, not, ◌&&◌, ltb, ◌==◌, if◌then◌else◌, arith,
  dec_lt, ℕ_discrete,
}
use dpdk_high_speed_flow_rou.Rcu.Qsbr.{QsbrApi, QsbrLaws}

pub record Reports : Type 0 where
  pub token : ℕ
  pub online : ℕ → Bool
  pub pending : ℕ → ℕ → Bool

abbrev pub waits : ℕ → Reports → ℕ → ℕ → Bool
waits size s t i = s.pending t i && (s.online i && ltb i size)

-- No reader below `i` is waited for.
abbrev pub none_waits : ℕ → Reports → ℕ → ℕ → Bool
none_waits size s t zero = true
none_waits size s t (suc i) = not (waits size s t i) && none_waits size s t i

abbrev pub simple_api : ℕ → QsbrApi
simple_api size = record {
  State = Reports;
  capacity = size;
  init = record { token = 0; online = λ i. false; pending = λ t i. false };
  register = λ i s. record s {
    online = λ j. if i == j then ltb i size else s.online j;
    pending = λ t j. if i == j then false else s.pending t j;
  };
  quiescent = λ i s. record s { pending = λ t j. if i == j then false else s.pending t j };
  unregister = λ i s. record s { online = λ j. if i == j then false else s.online j };
  start = λ s. (
    s.token,
    record s {
      token = suc s.token;
      pending = λ t j. if t == s.token then s.online j else s.pending t j;
    },
  );
  check = λ s t. none_waits size s t size;
}

none_waits-waits :
    (size : ℕ) (s : Reports) (t k i : ℕ)
    → none_waits size s t k ≡ true
    → i < k
    → waits size s t i ≡ false
none_waits-waits size s t zero i h low = absurd (omega arith)
none_waits-waits size s t (suc k) i h low = elim (ℕ_discrete i k) [
  | yes e ↦ rw e (ground arith)
  | no other ↦ none_waits-waits size s t k i (ground arith) (omega arith)
]

none_waits_all :
    (size : ℕ) (s : Reports) (t k : ℕ)
    → ((i : ℕ) → waits size s t i ≡ false)
    → none_waits size s t k ≡ true
none_waits_all size s t zero h = refl
none_waits_all size s t (suc k) h = rw (h k) (none_waits_all size s t k h)

beyond : (size : ℕ) (s : Reports) (t i : ℕ) → size ≤ i → waits size s t i ≡ false
beyond size s t i h = ground arith

pub simple-QsbrLaws : (size : ℕ) → QsbrLaws (simple_api size)
simple-QsbrLaws size = record {
  online = λ s i. s.online i && ltb i size;
  waited = waits size;
  online-init = λ i. refl;
  online-register = λ s i h. ground arith;
  online-register_other = λ s i j h. ground arith;
  waited-register = λ s t i j h. ground arith;
  waited-register_self = λ s t i. ground arith;
  online-quiescent = λ s i j. refl;
  waited-quiescent = λ s t i. ground arith;
  waited-quiescent_other = λ s t i j h. ground arith;
  online-unregister = λ s i. ground arith;
  online-unregister_other = λ s i j h. ground arith;
  waited-unregister = λ s t i j h. ground arith;
  online-start = λ s i. refl;
  waited-start = λ s i h. ground arith;
  waited-online = λ s t i h. ground arith;
  check-passes = λ s t i h. elim (dec_lt i size) [
    | yes low ↦ none_waits-waits size s t size i h low
    | no far ↦ beyond size s t i (omega arith)
  ];
  check_complete = λ s t h. none_waits_all size s t size h;
}
