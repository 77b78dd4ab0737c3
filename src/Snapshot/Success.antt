-- ===== src/Snapshot/Success.antt =====
-- `dp_snapshot_build` when it succeeds: its snapshot holds the rules that it was given.
use mathlib.Core.Path.{subst, subst₂}
use dpdk_high_speed_flow_rou.Prelude.{
  ℕ, ◌+◌, ◌^◌, ◌≤◌, ◌<◌, ◌≡◌, refl, sym, false, ◌||◌, List, Option, none, none-ne_some, some, arith,
  ℤ, length, length-take, All, ltb, is_neg, Bool-cases, inl, inr,
}
use dpdk_high_speed_flow_rou.Rules.{FlowRule, RouteRule}
use dpdk_high_speed_flow_rou.Tables.{TableApi, TableLaws}
use dpdk_high_speed_flow_rou.Snapshot.Types.{
  World, Grant, granted, refused, Grants, Snapshot, missing, elements,
}
use dpdk_high_speed_flow_rou.Snapshot.Build.{Draft, finish_build, build_granted, snapshot_build}
use dpdk_high_speed_flow_rou.Snapshot.Serving.{Complete, build_steps-Complete}

-- An array that is there has as many elements as the caller says.
abbrev pub Provided {ℓ} : {A : Type ℓ} → Option (List A) → ℕ → Type 0
Provided none n = Unit {0}
Provided (some array) n = n ≤ length array

pub length-elements {ℓ} :
    {A : Type ℓ} (array : Option (List A)) (n : ℕ)
    → Provided array n
    → missing array n ≡ false
    → length (elements array n) ≡ n
length-elements none n p h = ground arith
length-elements (some array) n p h = omega (arith, length-take n array)

module _ {api : TableApi} (laws : TableLaws api) where
  finish_build-some :
      (r : ℤ × Draft api) (s : Snapshot api)
      → (finish_build api r).result ≡ some s
      → (is_neg r.0 ≡ false) × (r.1.snapshot ≡ s)
  unfolding finish_build
  finish_build-some (ret, b) s e = ground arith

  module _ (fs : List FlowRule) (rs : List RouteRule) (generation : ℕ) (w : World)
      (s : Snapshot api) where
    build_granted-Complete :
        (grant : Grant) (g : Grants)
        → All (λ r. r.prefix < 2 ^ 32) rs
        → length fs + length rs ≤ 2048
        → (build_granted api grant g fs (length fs) rs (length rs) generation w).result ≡ some s
        → Complete laws fs rs s
    unfolding build_granted
    build_granted-Complete (refused e) g words few h = absurd (cc)
    build_granted-Complete granted g words few h =
        let (good, same) = finish_build-some _ s h in
        subst (Complete laws fs rs) same
          (build_steps-Complete laws fs rs g words few _ (refl, refl, refl, refl) good)

    build_granted-counted :
        (grant : Grant) (g : Grants) (m n : ℕ)
        → length fs ≡ m
        → length rs ≡ n
        → All (λ r. r.prefix < 2 ^ 32) rs
        → m + n ≤ 2048
        → (build_granted api grant g fs m rs n generation w).result ≡ some s
        → Complete laws fs rs s
    build_granted-counted grant g m n em en words few h =
        build_granted-Complete grant g words (omega arith) (
          subst₂ (λ (i j : ℕ). (build_granted api grant g fs i rs j generation w).result ≡ some s)
            (sym em) (sym en) h)

  -- The snapshot of a successful build is complete for the rules in the caller's arrays.
  pub snapshot_build-Complete :
      (g : Grants) (flows : Option (List FlowRule)) (m : ℕ) (routes : Option (List RouteRule))
      (n : ℕ) (generation : ℕ) (w : World) (s : Snapshot api)
      → Provided flows m
      → Provided routes n
      → All (λ r. r.prefix < 2 ^ 32) (elements routes n)
      → (snapshot_build api g flows m routes n generation w).result ≡ some s
      → Complete laws (elements flows m) (elements routes n) s
  unfolding snapshot_build
  snapshot_build-Complete g flows m routes n generation w s pf pr words h =
      elim (Bool-cases (ltb 1024 m || ltb 1024 n)) [
        | inl many ↦ absurd (none-ne_some (rw many at h))
        | inr few ↦ elim (Bool-cases (missing flows m || missing routes n)) [
          | inl null ↦ absurd (none-ne_some (rw (few, null) at h))
          | inr given ↦
              build_granted-counted (elements flows m) (elements routes n) generation w s g.snapshot
                g m n (length-elements flows m pf (ground arith))
                (length-elements routes n pr (ground arith)) words (ground arith)
                (rw (few, given) at h)
        ]
      ]
