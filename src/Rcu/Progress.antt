-- ===== src/Rcu/Progress.antt =====
-- A publication does not wait for ever: once each worker has reported, the old snapshot is freed.
use mathlib.Core.Path.{subst}
use dpdk_high_speed_flow_rou.Prelude.{
  ℕ, zero, suc, ◌<◌, ◌≡◌, inl, inr, refl, sym, ap, ◌∙◌, false, not, arith, dec_lt, ℕ_discrete,
  Bool-cases,
}
use dpdk_high_speed_flow_rou.Rcu.Qsbr.{QsbrApi, QsbrLaws}
use dpdk_high_speed_flow_rou.Rcu.{
  idle, is_off, free, waiting, reclaiming, update, System, check, reclaim, Reads, quiescent, writes,
  reads, Reach, here, next, initial,
}
use dpdk_high_speed_flow_rou.Rcu.Safety.{
  true-ne-false, Inv, initial-Inv, Reads-Inv, Reach-Inv, update_self,
}

module _ {q : QsbrApi} (laws : QsbrLaws q) (n : ℕ) where
  Reach-trans : {s t u : System q} → Reach q n s t → Reach q n t u → Reach q n s u
  Reach-trans r here = r
  Reach-trans r (next p st) = next (Reach-trans r p) st

  -- Workers below `k` have reported for the token, and the writer still waits.
  record Reported (old token k : ℕ) (s u : System q) : Type 0 where
    reach : Reach q n s u
    inv : Inv laws n u
    still : u.writer ≡ waiting old token
    done : (i : ℕ) → i < k → laws.waited u.qsbr token i ≡ false
    same : u.active ≡ s.active

  pub offline :
      (u : System q) (token k : ℕ)
      → laws.online u.qsbr k ≡ false
      → laws.waited u.qsbr token k ≡ false
  offline u token k gone = elim (Bool-cases (laws.waited u.qsbr token k)) [
    | inl e ↦ absurd (true-ne-false (sym (laws.waited-online u.qsbr token k e) ∙ gone))
    | inr e ↦ e
  ]

  -- The next worker reports, if it is registered; otherwise it is not waited for.
  report :
      (old token k : ℕ) (s u : System q)
      → Reported old token k s u
      → (v : System q) × Reported old token (suc k) s v
  report old token k s u r = elim (Bool-cases (is_off (u.reader k))) [
    | inl away ↦
        let gone : laws.online u.qsbr k ≡ false = r.inv.online k ∙ ap not away in
        (
          u,
          record {
            reach = r.reach;
            inv = r.inv;
            still = r.still;
            done = λ i h. elim (dec_lt i k) [
              | yes low ↦ r.done i low
              | no high ↦
                  subst (λ j. laws.waited u.qsbr token j ≡ false) (omega arith)
                    (offline u token k gone)
            ];
            same = r.same;
          },
        )
    | inr on ↦
        let v : System q = record u {
          qsbr = q.quiescent k u.qsbr;
          reader = update u.reader k idle;
        } in
        let step : Reads q n u v = quiescent k on refl in
        (
          v,
          record {
            reach = next r.reach (reads step);
            inv = Reads-Inv laws n step r.inv;
            still = r.still;
            done = λ i h. elim (ℕ_discrete k i) [
              | yes e ↦
                  subst (λ j. laws.waited v.qsbr token j ≡ false) e
                    (laws.waited-quiescent u.qsbr token k)
              | no other ↦
                  laws.waited-quiescent_other u.qsbr token k i other ∙ r.done i (omega arith)
            ];
            same = r.same;
          },
        )
  ]

  report_all :
      (old token k : ℕ) (s : System q)
      → Inv laws n s
      → s.writer ≡ waiting old token
      → (v : System q) × Reported old token k s v
  report_all old token zero s inv at = (
    s,
    record { reach = here; inv = inv; still = at; done = λ i h. absurd (omega arith); same = refl },
  )
  report_all old token (suc k) s inv at =
      let (u, r) = report_all old token k s inv at in report old token k s u r

  -- A publication whose wait has begun can always end: from every reachable state where it waits, the
  -- reports of the workers that are registered lead to a state where the check has passed, the old
  -- snapshot is freed, and the writer may publish again, with the same active snapshot.
  pub publication_ends :
      (old token : ℕ) {s : System q}
      → Reach q n (initial q n q.init) s
      → s.writer ≡ waiting old token
      → (u : System q) × Reach q n s u
        × (u.writer ≡ free)
        × (u.live old ≡ false)
        × (u.active ≡ s.active)
  publication_ends old token {s} r at =
      let inv = Reach-Inv laws n (initial-Inv laws n q.init refl) r in
      let (u, told) = report_all old token n s inv at in
      let passed = laws.check_complete u.qsbr token (λ i. elim (dec_lt i n) [
        | yes low ↦ told.done i low
        | no far ↦
            offline u token i
              (told.inv.online i ∙ ap (λ w. not (is_off w)) (told.inv.bounded i (omega arith)))
      ]) in
      let checked : System q = record u { writer = reclaiming old } in
      let freed : System q = record checked { live = update u.live old false; writer = free } in
      (
        freed,
        next (next told.reach (writes (check old token told.still passed refl)))
            (writes (reclaim old refl refl)),
        refl,
        update_self u.live old false,
        told.same,
      )
