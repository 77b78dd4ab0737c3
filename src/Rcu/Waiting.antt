-- ===== src/Rcu/Waiting.antt =====
-- How long a publication waits: until each worker has ended the round that it was in.
use mathlib.Core.Path.{subst}
use dpdk_high_speed_flow_rou.Prelude.{
  ℕ, ◌<◌, ◌≡◌, refl, sym, ap, ◌∙◌, Bool, true, false, not, arith, dec_lt, ℕ_discrete,
}
use dpdk_high_speed_flow_rou.Rcu.Qsbr.{QsbrApi, QsbrLaws}
use dpdk_high_speed_flow_rou.Rcu.{
  is_off, free, waiting, reclaiming, Publishes, check, reclaim, update, System, Reads, register,
  load, quiescent, unregister, Reach, initial,
}
use dpdk_high_speed_flow_rou.Rcu.Safety.{
  Inv, initial-Inv, Reads-Inv, Reach-Inv, update_self, update_other,
}
use dpdk_high_speed_flow_rou.Rcu.Progress.{offline}

module _ {q : QsbrApi} (n : ℕ) where
  -- Who has reported or left, after one more step of a worker.
  abbrev pub tell : {s u : System q} → Reads q n s u → (ℕ → Bool) → ℕ → Bool
  tell (register i low fits at e) told = told
  tell (load i at e) told = told
  tell (quiescent i on e) told = update told i true
  tell (unregister i at e) told = update told i true

  -- Steps of the workers in any order, with the workers that are off at the start, or have reported
  -- or left since.
  pub data Walks (s : System q) : (ℕ → Bool) → System q → Type 0 where
    stays : Walks s (λ i. is_off (s.reader i)) s
    walks :
        {t u : System q} {told : ℕ → Bool}
        → Walks s told t
        → (step : Reads q n t u) → Walks s (tell step told) u

module _ {q : QsbrApi} (laws : QsbrLaws q) (n : ℕ) where
  -- Those are not waited for.
  abbrev Told : ℕ → (ℕ → Bool) → System q → Type 0
  Told token told u = (i : ℕ) → told i ≡ true → laws.waited u.qsbr token i ≡ false

  tell-Told :
      {s u : System q} (token : ℕ) (told : ℕ → Bool) (step : Reads q n s u)
      → Told token told s
      → Told token (tell n step told) u
  tell-Told {s} token told (register i low fits at e) h j t = rw e (elim (ℕ_discrete i j) [
    | yes same ↦
        subst (λ (k : ℕ). laws.waited (q.register i s.qsbr) token k ≡ false) same
          (laws.waited-register_self s.qsbr token i)
    | no other ↦ laws.waited-register s.qsbr token i j other ∙ h j t
  ])
  tell-Told {s} token told (load i at e) h j t = rw e (h j t)
  tell-Told {s} token told (quiescent i on e) h j t = rw e (elim (ℕ_discrete i j) [
    | yes same ↦
        subst (λ (k : ℕ). laws.waited (q.quiescent i s.qsbr) token k ≡ false) same
          (laws.waited-quiescent s.qsbr token i)
    | no other ↦
        laws.waited-quiescent_other s.qsbr token i j other
        ∙ h j (sym (update_other told i j true other) ∙ t)
  ])
  tell-Told {s} token told (unregister i at e) h j t = rw e (elim (ℕ_discrete i j) [
    | yes same ↦
        subst (λ (k : ℕ). laws.waited (q.unregister i s.qsbr) token k ≡ false) same
          (offline laws n (record s { qsbr = q.unregister i s.qsbr }) token i
            (laws.online-unregister s.qsbr i))
    | no other ↦
        laws.waited-unregister s.qsbr token i j other
        ∙ h j (sym (update_other told i j true other) ∙ t)
  ])

  Walks-Told :
      (token : ℕ) {s u : System q} {told : ℕ → Bool}
      → Inv laws n s
      → Walks n s told u
      → Told token told u
  Walks-Told token {s} inv stays =
      λ i off_here. offline laws n s token i (inv.online i ∙ ap not off_here)
  Walks-Told token inv (walks {t} {u} {told} before step) =
      tell-Told token told step (Walks-Told token inv before)

  Walks-Inv : {s u : System q} {told : ℕ → Bool} → Inv laws n s → Walks n s told u → Inv laws n u
  Walks-Inv inv stays = inv
  Walks-Inv inv (walks before step) = Reads-Inv laws n step (Walks-Inv inv before)

  Reads-writer : {s u : System q} → Reads q n s u → u.writer ≡ s.writer
  Reads-writer (register i low fits at e) = ap (λ (x : System q). x.writer) e
  Reads-writer (load i at e) = ap (λ (x : System q). x.writer) e
  Reads-writer (quiescent i on e) = ap (λ (x : System q). x.writer) e
  Reads-writer (unregister i at e) = ap (λ (x : System q). x.writer) e

  Walks-writer : {s u : System q} {told : ℕ → Bool} → Walks n s told u → u.writer ≡ s.writer
  Walks-writer stays = refl
  Walks-writer (walks before step) = Reads-writer step ∙ Walks-writer before

  -- A publication waits no longer than until each worker has ended its round, or left. Let the wait
  -- have begun in a state that workers and publications can reach, and let the workers take their
  -- steps in any order from there. As soon as each worker has reported or left once, or was off at
  -- the start, the check passes, whatever the workers have done meanwhile, and two steps of the
  -- writer free the old snapshot and end the publication.
  pub wait_ends :
      (old token : ℕ) {s u : System q} {told : ℕ → Bool}
      → Reach q n (initial q n q.init) s
      → s.writer ≡ waiting old token
      → Walks n s told u
      → ((i : ℕ) → i < n → told i ≡ true)
      → (v w : System q) × Publishes q n u v
        × Publishes q n v w
        × (w.writer ≡ free)
        × (w.live old ≡ false)
  wait_ends old token {u = u} reach at walk all =
      let start = Reach-Inv laws n (initial-Inv laws n q.init refl) reach in
      let inv = Walks-Inv start walk in
      let passes = laws.check_complete u.qsbr token (λ i. elim (dec_lt i n) [
        | yes low ↦ Walks-Told token start walk i (all i low)
        | no far ↦
            offline laws n u token i
              (inv.online i ∙ ap (λ r. not (is_off r)) (inv.bounded i (omega arith)))
      ]) in
      let checked : System q = record u { writer = reclaiming old } in
      (
        checked,
        record checked { live = update u.live old false; writer = free },
        check old token (Walks-writer walk ∙ at) passes refl,
        reclaim old refl refl,
        refl,
        update_self u.live old false,
      )
