-- ===== src/Live/Invariant.antt =====
-- What every step of the running dataplane keeps.
use mathlib.Core.Path.{subst}
use dpdk_high_speed_flow_rou.Prelude.{
  ℕ, suc, ◌+◌, ◌≡◌, ◌≢◌, sym, ap, ◌∙◌, Bool, true, false, some, arith, ℕ_discrete,
}
use dpdk_high_speed_flow_rou.Tables.{TableApi}
use dpdk_high_speed_flow_rou.Snapshot.Types.{Snapshot}
use dpdk_high_speed_flow_rou.Control.{RuleArrays}
use dpdk_high_speed_flow_rou.Worker.Balance.{IsBalanced}
use dpdk_high_speed_flow_rou.Worker.Settled.{IsBuilt, occurrences}
use dpdk_high_speed_flow_rou.Rcu.Qsbr.{QsbrApi, QsbrLaws}
use dpdk_high_speed_flow_rou.Rcu
use dpdk_high_speed_flow_rou.Rcu.{
  Reader, off, idle, holding, is_off, Writer, free, update, System, Publishes, initial,
}
use dpdk_high_speed_flow_rou.Rcu.Safety.{Inv, Publishes-Inv, Reads-Inv, update_self, update_other}
use dpdk_high_speed_flow_rou.Live.{Running, deref, BuiltFrom}

-- Only a build makes a snapshot.
pub Publishes-live :
    {q : QsbrApi} (n : ℕ) {s v : System q}
    → Publishes q n s v
    → (s.writer ≡ free → ⊥)
    → (g : ℕ) → v.live g ≡ true
    → s.live g ≡ true
Publishes-live n (Rcu.build at e) busy g l = absurd (busy at)
Publishes-live n (Rcu.exchange new at e) busy g l = sym (ap (λ w. w.live g) e) ∙ l
Publishes-live n (Rcu.start old at e) busy g l = sym (ap (λ w. w.live g) e) ∙ l
Publishes-live n (Rcu.check old token at p e) busy g l = sym (ap (λ w. w.live g) e) ∙ l
Publishes-live n {s} (Rcu.reclaim old at e) busy g l =
    let later : update s.live old false g ≡ true = sym (ap (λ w. w.live g) e) ∙ l in
    ground (arith, later)

build-live :
    {q : QsbrApi} (n : ℕ) (s v : System q)
    → Publishes q n s v
    → s.writer ≡ free
    → (g : ℕ) → suc s.generation ≢ g
    → v.live g ≡ true
    → s.live g ≡ true
build-live n s v (Rcu.build at e) idle_writer g other l =
    sym (update_other s.live (suc s.generation) g true other) ∙ sym (ap (λ w. w.live g) e) ∙ l
build-live n s v (Rcu.exchange new at e) idle_writer g other l = absurd (cc)
build-live n s v (Rcu.start old at e) idle_writer g other l = absurd (cc)
build-live n s v (Rcu.check old token at p e) idle_writer g other l = absurd (cc)
build-live n s v (Rcu.reclaim old at e) idle_writer g other l = absurd (cc)

module _ {api : TableApi} {q : QsbrApi} (reading : QsbrLaws q) (n : ℕ) where
  -- A snapshot that is not freed is one that was built from the arrays of its generation.
  abbrev pub Stored : Running api q → Type 0
  Stored s =
      (g : ℕ)
      → s.rcu.live g ≡ true
      → (t : Snapshot api) × (s.store g ≡ some t) × BuiltFrom api q (s.rules g) g t

  -- Each packet that a worker received was taken or freed, once.
  abbrev pub Accounted : Running api q → ℕ → Type 0
  Accounted s i =
      (a : ℕ)
      → occurrences a (s.accepted i) + occurrences a (s.freed i) ≡ occurrences a (s.received i)

  pub record LiveInv (s : Running api q) : Type 0 where
    pub rcu : Inv reading n s.rcu
    pub stored : Stored s
    pub sound : s.fault ≡ false
    pub balanced : (i : ℕ) → IsBalanced 0 0 (s.stats i)
    pub accounted : (i : ℕ) → Accounted s i

  pub BuiltFrom-IsBuilt :
      (r : RuleArrays) (g : ℕ) (t : Snapshot api) → BuiltFrom api q r g t → IsBuilt t
  BuiltFrom-IsBuilt r g t (grants, w, given, built) = record {
    grants = grants;
    flows = r.flows;
    flow_count = r.flow_count;
    routes = r.routes;
    route_count = r.route_count;
    generation = g;
    world = w;
    flows_there = given.flows;
    routes_there = given.routes;
    words = given.words;
    built = built;
  }

  -- What a worker holds can be read.
  pub held-deref :
      (s : Running api q) (i g : ℕ)
      → LiveInv s
      → s.rcu.reader i ≡ holding g
      → (t : Snapshot api) × (deref api q s g ≡ some t) × BuiltFrom api q (s.rules g) g t
  held-deref s i g inv h =
      let (alive, why) = inv.rcu.held i g h in
      let (t, is, from) = inv.stored g alive in (t, rw alive is, from)

  -- Steps on the shared state alone.
  pub rcu_step-LiveInv :
      (s : Running api q) (v : System q)
      → LiveInv s
      → Inv reading n v
      → ((g : ℕ) → v.live g ≡ true → s.rcu.live g ≡ true)
      → LiveInv (record s { rcu = v })
  rcu_step-LiveInv s v inv next older = record {
    rcu = next;
    stored = λ g l. inv.stored g (older g l);
    sound = inv.sound;
    balanced = inv.balanced;
    accounted = inv.accounted;
  }

  -- A build stores its snapshot under a generation of its own.
  pub build_rules-LiveInv :
      (s : Running api q) (r : RuleArrays) (t : Snapshot api) (v : System q)
      → LiveInv s
      → BuiltFrom api q r (suc s.rcu.generation) t
      → s.rcu.writer ≡ free
      → Publishes q n s.rcu v
      → LiveInv (record s {
        rcu = v;
        store = update s.store (suc s.rcu.generation) (some t);
        rules = update s.rules (suc s.rcu.generation) r;
      })
  build_rules-LiveInv s r t v inv from idle_writer p = record {
    rcu = Publishes-Inv reading n p inv.rcu;
    stored = λ g l. elim (ℕ_discrete (suc s.rcu.generation) g) [
      | yes e ↦
          let at = suc s.rcu.generation in
          subst
            (λ (k : ℕ).
              (x : Snapshot api) × (update s.store at (some t) k ≡ some x)
              × BuiltFrom api q (update s.rules at r k) k x)
            e (t, update_self s.store at (some t), rw (update_self s.rules at r) from)
      | no other ↦
          let (old, is, was) = inv.stored g (build-live n s.rcu v p idle_writer g other l) in
          (
            old,
            update_other s.store (suc s.rcu.generation) g (some t) other ∙ is,
            rw (update_other s.rules (suc s.rcu.generation) g r other) was,
          )
    ];
    sound = inv.sound;
    balanced = inv.balanced;
    accounted = inv.accounted;
  }

  -- The steps of a worker outside of its rounds.
  pub Reads-LiveInv :
      (s : Running api q) (v : System q)
      → LiveInv s
      → Rcu.Reads q n s.rcu v
      → v.live ≡ s.rcu.live
      → LiveInv (record s { rcu = v })
  Reads-LiveInv s v inv step same =
      rcu_step-LiveInv s v inv (Reads-Inv reading n step inv.rcu)
        (λ g l. sym (ap (λ (live : ℕ → Bool). live g) same) ∙ l)
