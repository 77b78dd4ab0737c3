-- ===== src/Rcu/Safety.antt =====
-- No worker holds a snapshot that was freed.
use mathlib.Core.Path.{subst}
use dpdk_high_speed_flow_rou.Prelude.{
  ℕ, not, suc, ◌≤◌, ◌<◌, ◌≡◌, ◌≢◌, ◌⊎◌, inl, inr, refl, sym, ap, ◌∙◌, true, false, ◌==◌, arith,
  dec_lt, ℕ_discrete, ==_iff, Bool-cases,
}
use dpdk_high_speed_flow_rou.Rcu.Qsbr.{QsbrApi, QsbrLaws}
use dpdk_high_speed_flow_rou.Rcu.{
  Reader, off, idle, holding, is_off, Writer, free, built, exchanged, waiting, reclaiming, update,
  System, Publishes, build, exchange, start, check, reclaim, Reads, register, load, quiescent,
  unregister, Step, writes, reads, Reach, here, next, initial,
}

pub true-ne-false : true ≡ false → ⊥
true-ne-false e = cc

module _ {ℓ} {A : Type ℓ} where
  pub update_self : (f : ℕ → A) (i : ℕ) (v : A) → update f i v i ≡ v
  update_self f i v = rw ((==_iff i i).1 refl) refl

  pub update_other : (f : ℕ → A) (i j : ℕ) (v : A) → i ≢ j → update f i v j ≡ f j
  update_other f i j v h = elim (Bool-cases (i == j)) [
    | inl e ↦ absurd (h ((==_iff i j).0 e))
    | inr e ↦ rw e refl
  ]

module _ {q : QsbrApi} (laws : QsbrLaws q) (n : ℕ) where
  -- Why a snapshot other than the active one may still be held.
  abbrev Guarded : q.State → Writer → ℕ → ℕ → Type 0
  Guarded qsbr (exchanged old) i g = g ≡ old
  Guarded qsbr (waiting old token) i g = (g ≡ old) × (laws.waited qsbr token i ≡ true)
  Guarded qsbr _ i g = ⊥

  abbrev Replaced : System q → ℕ → Type 0
  Replaced s old = (s.live old ≡ true) × (old < s.generation)

  -- What the writer holds.
  abbrev Holds : System q → Writer → Type 0
  Holds s free = Unit {0}
  Holds s (built new) = (new ≡ suc s.generation) × (s.live new ≡ true)
  Holds s (exchanged old) = Replaced s old
  Holds s (waiting old token) = Replaced s old
  Holds s (reclaiming old) = Replaced s old

  pub record Inv (s : System q) : Type 0 where
    pub current : s.active ≡ s.generation
    pub alive : s.live s.active ≡ true
    pub writes : Holds s s.writer
    pub online : (i : ℕ) → laws.online s.qsbr i ≡ not (is_off (s.reader i))
    pub bounded : (i : ℕ) → n ≤ i → s.reader i ≡ off
    pub held :
        (i g : ℕ)
        → s.reader i ≡ holding g
        → (s.live g ≡ true) × ((g ≡ s.active) ⊎ Guarded s.qsbr s.writer i g)

  pub initial-Inv : (qsbr : q.State) → qsbr ≡ q.init → Inv (initial q n qsbr)
  initial-Inv qsbr e = record {
    current = refl;
    alive = refl;
    writes = tt;
    online = λ i. rw e (laws.online-init i);
    bounded = λ i h. refl;
    held = λ i g h. absurd (cc);
  }

  -- Of a worker's hold, by what the writer does not hold.
  held_active :
      (s : System q) (w : Writer)
      → Inv s
      → s.writer ≡ w
      → ((i g : ℕ) → Guarded s.qsbr w i g → ⊥)
      → (i g : ℕ) → s.reader i ≡ holding g
      → (s.live g ≡ true) × (g ≡ s.active)
  held_active s w inv at unguarded i g h =
      let (l, why) = inv.held i g h in
      (l, elim why [ inl e ↦ e | inr k ↦ absurd (unguarded i g (rw at at k)) ])

  pub Publishes-Inv : {s u : System q} → Publishes q n s u → Inv s → Inv u
  Publishes-Inv {s} {u} (build at e) inv = subst Inv (sym e) (record {
    current = inv.current;
    alive = ground (arith, inv.alive, inv.current);
    writes = (refl, ground arith);
    online = inv.online;
    bounded = inv.bounded;
    held = λ i g h.
        let (l, is) = held_active s free inv at (λ j k a. a) i g h in (ground (arith, l), inl is);
  })
  Publishes-Inv {s} {u} (exchange new at e) inv =
      let holds : Holds s (built new) = rw at at inv.writes in
      subst Inv (sym e) (record {
        current = refl;
        alive = holds.1;
        writes = (inv.alive, omega (arith, inv.current, holds.0));
        online = inv.online;
        bounded = inv.bounded;
        held = λ i g h.
            let (l, is) = held_active s (built new) inv at (λ j k a. a) i g h in (l, inr is);
      })
  Publishes-Inv {s} {u} (start old at e) inv =
      let holds : Holds s (exchanged old) = rw at at inv.writes in
      subst Inv (sym e) (record {
        current = inv.current;
        alive = inv.alive;
        writes = holds;
        online = λ i. laws.online-start s.qsbr i ∙ inv.online i;
        bounded = inv.bounded;
        held = λ i g h.
            let (l, why) = inv.held i g h in
            (
              l,
              elim why [
                | inl is ↦ inl is
                | inr k ↦
                    let is : g ≡ old = rw at at k in
                    inr (is, laws.waited-start s.qsbr i (inv.online i ∙ ap (λ r. not (is_off r)) h))
              ],
            );
      })
  Publishes-Inv {s} {u} (check old token at passed e) inv =
      let holds : Holds s (waiting old token) = rw at at inv.writes in
      subst Inv (sym e) (record {
        current = inv.current;
        alive = inv.alive;
        writes = holds;
        online = inv.online;
        bounded = inv.bounded;
        held = λ i g h.
            let (l, why) = inv.held i g h in
            (
              l,
              elim why [
                | inl is ↦ inl is
                | inr k ↦
                    let still : (g ≡ old) × (laws.waited s.qsbr token i ≡ true) = rw at at k in
                    let no_more = laws.check-passes s.qsbr token i passed in
                    absurd (true-ne-false (sym (still.1) ∙ no_more))
              ],
            );
      })
  Publishes-Inv {s} {u} (reclaim old at e) inv =
      let holds : Holds s (reclaiming old) = rw at at inv.writes in
      subst Inv (sym e) (record {
        current = inv.current;
        alive = ground (arith, inv.alive, inv.current, holds);
        writes = tt;
        online = inv.online;
        bounded = inv.bounded;
        held = λ i g h.
            let (l, is) = held_active s (reclaiming old) inv at (λ j k a. a) i g h in
            (ground (arith, l, is, inv.current, holds), inl is);
      })

  Guarded-other :
      (before after : q.State) (w : Writer) (j g : ℕ)
      → ((t : ℕ) → laws.waited after t j ≡ laws.waited before t j)
      → Guarded before w j g
      → Guarded after w j g
  Guarded-other before after (exchanged old) j g same k = k
  Guarded-other before after (waiting old token) j g same k = (k.0, same token ∙ k.1)
  Guarded-other before after free j g same k = k
  Guarded-other before after (built new) j g same k = k
  Guarded-other before after (reclaiming old) j g same k = k

  -- A step of worker `i` that leaves the others' reports alone, and holds at most the active snapshot.
  reader_step-Inv :
      (s : System q) (i : ℕ) (v : Reader) (qsbr : q.State)
      → Inv s
      → i < n
      → laws.online qsbr i ≡ not (is_off v)
      → ((j : ℕ) → i ≢ j → laws.online qsbr j ≡ laws.online s.qsbr j)
      → ((j t : ℕ) → i ≢ j → laws.waited qsbr t j ≡ laws.waited s.qsbr t j)
      → ((g : ℕ) → v ≡ holding g → g ≡ s.active)
      → Inv (record s { qsbr = qsbr; reader = update s.reader i v })
  reader_step-Inv s i v qsbr inv inside mine others reports mine_holds = record {
    current = inv.current;
    alive = inv.alive;
    writes = inv.writes;
    online = λ j. elim (ℕ_discrete i j) [
      | yes same ↦
          subst (λ k. laws.online qsbr k ≡ not (is_off (update s.reader i v k))) same
            (rw (update_self s.reader i v) mine)
      | no other ↦ rw (update_other s.reader i j v other) (others j other ∙ inv.online j)
    ];
    bounded = λ j far. update_other s.reader i j v (λ e. absurd (omega arith)) ∙ inv.bounded j far;
    held = λ j g h. elim (ℕ_discrete i j) [
      | yes same ↦
          let is : v ≡ holding g =
            sym (subst (λ k. update s.reader i v k ≡ v) same (update_self s.reader i v)) ∙ h in
          let active = mine_holds g is in (ap s.live active ∙ inv.alive, inl active)
      | no other ↦
          let (l, why) = inv.held j g (sym (update_other s.reader i j v other) ∙ h) in
          (
            l,
            elim why [
              | inl is ↦ inl is
              | inr k ↦ inr (Guarded-other s.qsbr qsbr s.writer j g (λ t. reports j t other) k)
            ],
          )
    ];
  }

  -- A worker that is registered is one of the `n`.
  registered-lt : (s : System q) (i : ℕ) → Inv s → is_off (s.reader i) ≡ false → i < n
  registered-lt s i inv on = elim (dec_lt i n) [
    | yes h ↦ h
    | no far ↦
        let gone = inv.bounded i (omega arith) in absurd (true-ne-false (sym (ap is_off gone) ∙ on))
  ]

  pub Reads-Inv : {s u : System q} → Reads q n s u → Inv s → Inv u
  Reads-Inv {s} {u} (register i inside fits at e) inv = subst Inv (sym e) (
      reader_step-Inv s i idle (q.register i s.qsbr) inv inside (laws.online-register s.qsbr i fits)
        (laws.online-register_other s.qsbr i) (λ j t. laws.waited-register s.qsbr t i j)
        (λ g h. absurd (cc)))
  Reads-Inv {s} {u} (load i at e) inv = subst Inv (sym e) (
      reader_step-Inv s i (holding s.active) s.qsbr inv (registered-lt s i inv (ap is_off at))
        (inv.online i ∙ ap (λ r. not (is_off r)) at) (λ j h. refl) (λ j t h. refl) (λ g h. cc))
  Reads-Inv {s} {u} (quiescent i on e) inv = subst Inv (sym e) (
      reader_step-Inv s i idle (q.quiescent i s.qsbr) inv (registered-lt s i inv on)
        (laws.online-quiescent s.qsbr i i ∙ inv.online i ∙ ap not on)
        (λ j h. laws.online-quiescent s.qsbr i j) (λ j t. laws.waited-quiescent_other s.qsbr t i j)
        (λ g h. absurd (cc)))
  Reads-Inv {s} {u} (unregister i at e) inv = subst Inv (sym e) (
      reader_step-Inv s i off (q.unregister i s.qsbr) inv (registered-lt s i inv (ap is_off at))
        (laws.online-unregister s.qsbr i) (laws.online-unregister_other s.qsbr i)
        (λ j t. laws.waited-unregister s.qsbr t i j) (λ g h. absurd (cc)))

  Step-Inv : {s u : System q} → Step q n s u → Inv s → Inv u
  Step-Inv (writes p) inv = Publishes-Inv p inv
  Step-Inv (reads r) inv = Reads-Inv r inv

  pub Reach-Inv : {s u : System q} → Inv s → Reach q n s u → Inv u
  Reach-Inv inv here = inv
  Reach-Inv inv (next r st) = Step-Inv st (Reach-Inv inv r)

  -- In every state that workers and publications can reach, however their steps interleave, a snapshot
  -- that a worker holds is not freed, and neither is the active one, whose generation is the one that
  -- the statistics show.
  pub no_use_after_free :
      {s : System q}
      → Reach q n (initial q n q.init) s
      → (i g : ℕ) → s.reader i ≡ holding g
      → (s.live g ≡ true) × (s.live s.active ≡ true) × (s.active ≡ s.generation)
  no_use_after_free {s} r i g h =
      let inv = Reach-Inv (initial-Inv q.init refl) r in
      ((inv.held i g h).0, inv.alive, inv.current)
