-- ===== src/Rules/Mask.antt =====
-- The masks of the rule checks, as arithmetic: which actions are valid, and which prefixes have no
-- host bits.
use dpdk_high_speed_flow_rou.Prelude.{
  ℕ, zero, suc, ◌+◌, ◌-◌, ◌*◌, ◌/◌, ◌%◌, ◌^◌, ◌≤◌, ◌<◌, ◌≡◌, refl, ◌↔◌, Bool, true, false, ◌&&◌,
  arith, ap, ◌∙◌, bit_and, ◌==◌, ==→eq, pos, ltb, not, minus, einval, ◌⊎◌, ◌||◌,
}
use native.Mathlib.Nat.{div-add-mod, div-lt_iff_lt-mul, one-le-pow, mod-eq_of_lt}
use dpdk_high_speed_flow_rou.Prelude.Bits.{bit_and-ones, bit_and-shifted}
use dpdk_high_speed_flow_rou.Rules.{Action, RouteRule, validate_action, route_mask, has_host_bits}

-- Every value below a bound, by evaluation.
for_all : ℕ → (ℕ → Bool) → Bool
for_all zero p = true
for_all (suc n) p = p n && for_all n p

for_all_lem : (n : ℕ) (p : ℕ → Bool) (x : ℕ) → for_all n p ≡ true → x < n → p x ≡ true
unfolding for_all
for_all_lem zero p x h lt = absurd (omega arith)
for_all_lem (suc n) p x h lt = ground (arith, for_all_lem n p x)

mask_table : for_all 33 (λ d. route_mask d == 2 ^ (32 - d) * (2 ^ d - 1)) ≡ true
unfolding for_all route_mask
mask_table = refl

split_table : for_all 33 (λ d. 2 ^ d * 2 ^ (32 - d) == 2 ^ 32) ≡ true
unfolding for_all
split_table = refl

module _ (d : ℕ) (small : d ≤ 32) where
  route_mask-eq : route_mask d ≡ 2 ^ (32 - d) * (2 ^ d - 1)
  route_mask-eq = ==→eq _ _ (for_all_lem 33 _ d mask_table (omega arith))

  two-pow-split : 2 ^ d * 2 ^ (32 - d) ≡ 2 ^ 32
  two-pow-split = ==→eq _ _ (for_all_lem 33 _ d split_table (omega arith))

  high-lt : (p : ℕ) → p < 2 ^ 32 → p / 2 ^ (32 - d) < 2 ^ d
  high-lt p h =
      (div-lt_iff_lt-mul {k = 2 ^ (32 - d)} {x = p} {y = 2 ^ d}
          (one-le-pow (32 - d) 2 (omega arith))).1
        (rw two-pow-split h)

  -- The bits of an address under the mask are all but the lowest `32 - d`.
  pub bit_and-route_mask : (p : ℕ) → p < 2 ^ 32 → bit_and p (route_mask d) + p % 2 ^ (32 - d) ≡ p
  bit_and-route_mask p h = rw route_mask-eq (
      omega (
        arith,
        bit_and-shifted (32 - d) p (2 ^ d - 1),
        ap (λ (t : ℕ). 2 ^ (32 - d) * t)
            (bit_and-ones d (p / 2 ^ (32 - d)) ∙ mod-eq_of_lt (high-lt p h)),
        div-add-mod p (2 ^ (32 - d)),
      ))

-- A prefix passes the mask test exactly when its host bits are zero.
pub has_host_bits_iff :
    (r : RouteRule)
    → r.prefix < 2 ^ 32
    → r.depth ≤ 32
    → (has_host_bits r ≡ false) ↔ (r.prefix % 2 ^ (32 - r.depth) ≡ 0)
unfolding has_host_bits
has_host_bits_iff r p d = (
  λ h. ground (arith, bit_and-route_mask r.depth d r.prefix p),
  λ h. ground (arith, bit_and-route_mask r.depth d r.prefix p),
)

-- What a valid action is, said of its fields.
abbrev pub IsAction : Action → Type 0
IsAction a =
    (a.reserved ≡ 0)
    × (((a.type < 2) × (a.rewrite_mask ≡ 0))
        ⊎ ((a.type ≡ 2) × (1 ≤ a.rewrite_mask) × (a.rewrite_mask ≤ 15)))

high_bits-table :
    for_all 256 (λ m.
      bit_and m (2 ^ 32 - 1 - 15) == 0 && ltb m 16
      || not (bit_and m (2 ^ 32 - 1 - 15) == 0) && not (ltb m 16))
    ≡ true
unfolding for_all
high_bits-table = refl

high_bits : (m : ℕ) → m < 256 → (bit_and m (2 ^ 32 - 1 - 15) ≡ 0) ↔ (m ≤ 15)
high_bits m h =
    let t : (bit_and m (2 ^ 32 - 1 - 15) == 0 && ltb m 16
          || not (bit_and m (2 ^ 32 - 1 - 15) == 0) && not (ltb m 16))
        ≡ true =
      for_all_lem 256
        (λ m.
          bit_and m (2 ^ 32 - 1 - 15) == 0 && ltb m 16
          || not (bit_and m (2 ^ 32 - 1 - 15) == 0) && not (ltb m 16))
        m high_bits-table h in
    (λ e. ground arith, λ e. ground arith)

-- An action is accepted exactly when it is valid; otherwise the code is -EINVAL.
pub validate_action-IsAction :
    (a : Action)
    → a.rewrite_mask < 256
    → ((validate_action a ≡ pos 0) ↔ IsAction a)
      × ((validate_action a ≡ pos 0) ⊎ (validate_action a ≡ minus einval))
unfolding validate_action
validate_action-IsAction a h = (
  (λ e. ground (arith, high_bits a.rewrite_mask), λ v. ground (arith, high_bits a.rewrite_mask)),
  ground arith,
)

-- The same of the mask in eight bits.
high_bits8-table :
    for_all 256 (λ m.
      bit_and m (2 ^ 8 - 1 - 15) == 0 && ltb m 16
      || not (bit_and m (2 ^ 8 - 1 - 15) == 0) && not (ltb m 16))
    ≡ true
unfolding for_all
high_bits8-table = refl

pub high_bits8 : (m : ℕ) → m < 256 → (bit_and m (2 ^ 8 - 1 - 15) ≡ 0) ↔ (m ≤ 15)
high_bits8 m h =
    let t : (bit_and m (2 ^ 8 - 1 - 15) == 0 && ltb m 16
          || not (bit_and m (2 ^ 8 - 1 - 15) == 0) && not (ltb m 16))
        ≡ true =
      for_all_lem 256
        (λ m.
          bit_and m (2 ^ 8 - 1 - 15) == 0 && ltb m 16
          || not (bit_and m (2 ^ 8 - 1 - 15) == 0) && not (ltb m 16))
        m high_bits8-table h in
    (λ e. ground arith, λ e. ground arith)
