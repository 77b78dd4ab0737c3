-- ===== src/Lookup/Order.antt =====
-- The order of the configured rules: what a reference decision owes to it.
use mathlib.Core.List.{Permᴰ}
use native.Mathlib.Nat.{div-add-mod}
use dpdk_high_speed_flow_rou.Prelude.{
  ℕ, ◌^◌, ◌-◌, ◌%◌, ◌/◌, ◌*◌, Option-cases, ==→eq, ◌≡◌, refl, sym, ◌∙◌, true, false, List, [], ◌∷◌,
  none, none-ne_some, arith, ap, All, Bool-cases, inl, inr,
}
use dpdk_high_speed_flow_rou.Rules.{FlowRule, RouteRule, FlowKey, same_key, flow_key_of_rule}
use dpdk_high_speed_flow_rou.Tables.{covers}
use dpdk_high_speed_flow_rou.Snapshot.Valid.{Distinct}
use dpdk_high_speed_flow_rou.Snapshot.Unique.{lists_prefix, AreUnique}
use dpdk_high_speed_flow_rou.Lookup.Reference.{find_flow, best_route}

pub All-perm {ℓ} :
    {A : Type ℓ} (P : A → Type 0) {xs ys : List A} → Permᴰ xs ys → All P xs → All P ys
All-perm P Permᴰ.nil v = v
All-perm P (Permᴰ.cons e p) v = (rw (← e) v.0, All-perm P p v.1)
All-perm P (Permᴰ.swap e f) v = (rw (← f) v.1.0, (rw (← e) v.0, v.1.1))
All-perm P (Permᴰ.trans p q) v = All-perm P q (All-perm P p v)

find_flow-none-perm :
    {fs gs : List FlowRule} (k : FlowKey)
    → Permᴰ fs gs
    → find_flow fs k ≡ none
    → find_flow gs k ≡ none
find_flow-none-perm k Permᴰ.nil h = h
find_flow-none-perm k (Permᴰ.cons {a} {b} {l₁} {l₂} e p) h =
    elim (Bool-cases (same_key (flow_key_of_rule a) k)) [
      | inl same ↦ absurd (none-ne_some (sym (rw same at h)))
      | inr other ↦ rw (← e, other) (find_flow-none-perm k p (rw other at h))
    ]
find_flow-none-perm k (Permᴰ.swap {a} {b} {a'} {b'} {l} e f) h = rw (← e, ← f) (ground arith)
find_flow-none-perm k (Permᴰ.trans p q) h = find_flow-none-perm k q (find_flow-none-perm k p h)

pub Distinct-perm : {fs gs : List FlowRule} → Permᴰ fs gs → Distinct fs → Distinct gs
Distinct-perm Permᴰ.nil d = d
Distinct-perm (Permᴰ.cons {a} {b} {l₁} {l₂} e p) d =
    (rw (← e) (find_flow-none-perm (flow_key_of_rule a) p d.0), Distinct-perm p d.1)
Distinct-perm (Permᴰ.swap {a} {b} {a'} {b'} {l} e f) d =
    rw (← e, ← f) (ground arith, (ground arith, d.1.1))
Distinct-perm (Permᴰ.trans p q) d = Distinct-perm q (Distinct-perm p d)

pub find_flow-perm :
    {fs gs : List FlowRule} (k : FlowKey)
    → Permᴰ fs gs
    → Distinct fs
    → find_flow fs k ≡ find_flow gs k
find_flow-perm k Permᴰ.nil d = refl
find_flow-perm k (Permᴰ.cons {a} {b} {l₁} {l₂} e p) d = rw (← e, find_flow-perm k p d.1) refl
find_flow-perm k (Permᴰ.swap {a} {b} {a'} {b'} {l} e f) d = rw (← e, ← f) (ground arith)
find_flow-perm k (Permᴰ.trans p q) d = find_flow-perm k p d ∙ find_flow-perm k q (Distinct-perm p d)

lists_prefix-perm :
    {rs qs : List RouteRule} (p d : ℕ)
    → Permᴰ rs qs
    → lists_prefix rs p d ≡ false
    → lists_prefix qs p d ≡ false
lists_prefix-perm p d Permᴰ.nil h = h
lists_prefix-perm p d (Permᴰ.cons {a} {b} {l₁} {l₂} e q) h =
    rw (← e) (ground (arith, lists_prefix-perm p d q (ground arith)))
lists_prefix-perm p d (Permᴰ.swap {a} {b} {a'} {b'} {l} e f) h = rw (← e, ← f) (ground arith)
lists_prefix-perm p d (Permᴰ.trans s t) h = lists_prefix-perm p d t (lists_prefix-perm p d s h)

pub AreUnique-perm : {rs qs : List RouteRule} → Permᴰ rs qs → AreUnique rs → AreUnique qs
AreUnique-perm Permᴰ.nil u = u
AreUnique-perm (Permᴰ.cons {a} {b} {l₁} {l₂} e p) u =
    (rw (← e) (lists_prefix-perm a.prefix a.depth p u.0), AreUnique-perm p u.1)
AreUnique-perm (Permᴰ.swap {a} {b} {a'} {b'} {l} e f) u =
    rw (← e, ← f) (ground arith, (ground arith, u.1.1))
AreUnique-perm (Permᴰ.trans p q) u = AreUnique-perm q (AreUnique-perm p u)

-- A route without host bits.
abbrev pub IsNetwork : RouteRule → Type 0
IsNetwork r = r.prefix % 2 ^ (32 - r.depth) ≡ 0

same_multiple : (n x y : ℕ) → x % n ≡ 0 → y % n ≡ 0 → x / n ≡ y / n → x ≡ y
same_multiple n x y hx hy h =
    omega (arith, div-add-mod x n, div-add-mod y n, ap (λ (t : ℕ). n * t) h)

-- Two networks of one depth that cover an address are one.
covers-same :
    (r q : RouteRule) (ip : ℕ)
    → IsNetwork r
    → IsNetwork q
    → covers r.prefix r.depth ip ≡ true
    → covers q.prefix q.depth ip ≡ true
    → r.depth ≡ q.depth
    → r.prefix ≡ q.prefix
covers-same r q ip nr nq cr cq d =
    let n = 2 ^ (32 - r.depth) in
    let high : ip / n ≡ q.prefix / n = rw (← d) at (==→eq _ _ cq) in
    let none_left : q.prefix % n ≡ 0 = rw (← d) at nq in
    same_multiple n r.prefix q.prefix nr none_left (sym (==→eq _ _ cr) ∙ high)

best_route-swap :
    (a b : RouteRule) (rs : List RouteRule) (ip : ℕ)
    → IsNetwork a
    → IsNetwork b
    → lists_prefix (b ∷ []) a.prefix a.depth ≡ false
    → best_route (a ∷ b ∷ rs) ip ≡ best_route (b ∷ a ∷ rs) ip
best_route-swap a b rs ip na nb apart = elim (Option-cases (best_route rs ip)) [
  | inl e ↦ ground (arith, e, covers-same a b ip na nb)
  | inr (r, e) ↦ ground (arith, e, covers-same a b ip na nb)
]

pub best_route-perm :
    {rs qs : List RouteRule} (ip : ℕ)
    → Permᴰ rs qs
    → All IsNetwork rs
    → AreUnique rs
    → best_route rs ip ≡ best_route qs ip
best_route-perm ip Permᴰ.nil n u = refl
best_route-perm ip (Permᴰ.cons {a} {b} {l₁} {l₂} e p) n u =
    rw (← e, best_route-perm ip p n.1 u.1) refl
best_route-perm ip (Permᴰ.swap {a} {b} {a'} {b'} {l} e f) n u =
    rw (← e, ← f) (best_route-swap a b l ip n.0 n.1.0 (ground arith))
best_route-perm ip (Permᴰ.trans p q) n u =
    best_route-perm ip p n u ∙ best_route-perm ip q (All-perm IsNetwork p n) (AreUnique-perm p u)
