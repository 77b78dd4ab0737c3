-- ===== src/Rcu/Leaks.antt =====
-- Which snapshots are allocated while rules are published.
use mathlib.Core.Path.{subst}
use dpdk_high_speed_flow_rou.Prelude.{
  ℕ, suc, ◌≡◌, ◌⊎◌, inl, inr, sym, ap, ◌∙◌, true, false, ℕ_discrete,
}
use dpdk_high_speed_flow_rou.Rcu.Qsbr.{QsbrApi}
use dpdk_high_speed_flow_rou.Rcu.Safety.{true-ne-false, update_self, update_other}
use dpdk_high_speed_flow_rou.Rcu.{
  Writer, free, built, exchanged, waiting, reclaiming, update, System, Publishes, build, exchange,
  start, check, reclaim, Reads, register, load, quiescent, unregister, writes, reads, Reach, here,
  next, initial,
}

-- The snapshot that a call of `dp_publish_rules` has in hand, besides the active one.
abbrev pub InHand : Writer → ℕ → Type 0
InHand free g = ⊥
InHand (built new) g = g ≡ new
InHand (exchanged old) g = g ≡ old
InHand (waiting old token) g = g ≡ old
InHand (reclaiming old) g = g ≡ old

-- A snapshot that is allocated is active, or in the writer's hand.
abbrev pub NoLeak : {q : QsbrApi} → System q → Type 0
NoLeak s = (g : ℕ) → s.live g ≡ true → (g ≡ s.active) ⊎ InHand s.writer g

-- What is allocated at a place of the writer.
pub kept_at :
    {q : QsbrApi} (s : System q) (w : Writer)
    → s.writer ≡ w
    → NoLeak s
    → (g : ℕ) → s.live g ≡ true
    → (g ≡ s.active) ⊎ InHand w g
kept_at s w at kept g l = subst (λ v. (g ≡ s.active) ⊎ InHand v g) at (kept g l)

swapped : {A B : Type 0} → A ⊎ B → B ⊎ A
swapped (inl a) = inr a
swapped (inr b) = inl b

pub not_in_hand : {A : Type 0} → A ⊎ ⊥ → A
not_in_hand (inl a) = a
not_in_hand (inr b) = absurd b

pub initial-NoLeak : (q : QsbrApi) (n : ℕ) (qsbr : q.State) → NoLeak (initial q n qsbr)
initial-NoLeak q n qsbr g l = elim (ℕ_discrete 1 g) [
  | yes e ↦ inl (sym e)
  | no other ↦ absurd (true-ne-false (sym l ∙ update_other (λ j. false) 1 g true other))
]

module _ {q : QsbrApi} (n : ℕ) where
  pub Publishes-NoLeak : {s u : System q} → Publishes q n s u → NoLeak s → NoLeak u
  Publishes-NoLeak {s} (build at e) kept = subst NoLeak (sym e) (λ g l.
      elim (ℕ_discrete (suc s.generation) g) [
        | yes new ↦ inr (sym new)
        | no other ↦
            inl (
              not_in_hand (kept_at s free at kept g (sym (update_other s.live _ g true other) ∙ l)))
      ])
  Publishes-NoLeak {s} (exchange new at e) kept =
      subst NoLeak (sym e) (λ g l. swapped (kept_at s (built new) at kept g l))
  Publishes-NoLeak {s} (start old at e) kept =
      subst NoLeak (sym e) (λ g l. kept_at s (exchanged old) at kept g l)
  Publishes-NoLeak {s} (check old token at p e) kept =
      subst NoLeak (sym e) (λ g l. kept_at s (waiting old token) at kept g l)
  Publishes-NoLeak {s} (reclaim old at e) kept = subst NoLeak (sym e) (λ g l.
      elim (ℕ_discrete old g) [
        | yes same ↦ absurd (
            true-ne-false
              (sym l ∙ ap (update s.live old false) (sym same) ∙ update_self s.live old false))
        | no other ↦
            elim (kept_at s (reclaiming old) at kept g
              (sym (update_other s.live old g false other) ∙ l)) [
                | inl active ↦ inl active
                | inr was ↦ absurd (other (sym was))
              ]
      ])

  Reads-NoLeak : {s u : System q} → Reads q n s u → NoLeak s → NoLeak u
  Reads-NoLeak (register i low fits at e) kept = subst NoLeak (sym e) kept
  Reads-NoLeak (load i at e) kept = subst NoLeak (sym e) kept
  Reads-NoLeak (quiescent i on e) kept = subst NoLeak (sym e) kept
  Reads-NoLeak (unregister i at e) kept = subst NoLeak (sym e) kept

  Reach-NoLeak : {s : System q} → Reach q n (initial q n q.init) s → NoLeak s
  Reach-NoLeak here = initial-NoLeak q n q.init
  Reach-NoLeak (next r (writes p)) = Publishes-NoLeak p (Reach-NoLeak r)
  Reach-NoLeak (next r (reads p)) = Reads-NoLeak p (Reach-NoLeak r)

  -- Publications do not pile up memory: in every state that workers and publications can reach, a
  -- snapshot that is allocated is the active one, or the one that the publication under way has in
  -- hand. Between two publications the active one is the only one.
  pub no_leak :
      {s : System q}
      → Reach q n (initial q n q.init) s
      → (g : ℕ) → s.live g ≡ true
      → (g ≡ s.active) ⊎ InHand s.writer g
  no_leak r g l = Reach-NoLeak r g l
