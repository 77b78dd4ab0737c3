-- ===== src/Prelude/Bits.antt =====
-- `&` with a run of ones, low or shifted up, as arithmetic.
use Prim.Native.Nat.{
  ℕ, zero, suc, ◌+◌, ◌-◌, ◌*◌, ◌/◌, ◌%◌, ◌^◌, ◌≤◌, min, bit_and, digits, bit_and-bitwise,
}
use mathlib.Core.Path.{◌≡◌, refl, ap, ◌∙◌}
use native.Mathlib.Nat.{pow-suc, one-le-pow, div-div-eq-div-mul, div-add-mod}
use native.Mathlib.Omega.{arith}

-- The digit recursion that `bit_and` stands for, with enough digits to go.
abbrev common : ℕ → ℕ → ℕ → ℕ
common n a b = digits (λ _. zero) min n a b

common_enough : (n a b : ℕ) → a ≤ n → common n a b ≡ common a a b
common_enough n a b h = go n a a b h (omega arith)
  where
    go : (n m a b : ℕ) → a ≤ n → a ≤ m → common n a b ≡ common m a b
    go zero zero a b p q = refl
    go zero (suc m) zero b p q = refl
    go zero (suc m) (suc a) b p q = absurd (omega arith)
    go (suc n) zero zero b p q = refl
    go (suc n) zero (suc a) b p q = absurd (omega arith)
    go (suc n) (suc m) zero b p q = refl
    go (suc n) (suc m) (suc a) b p q =
        omega (arith, go n m (suc a / 2) (b / 2) (omega arith) (omega arith))

-- One binary digit at a time.
bit_and-halves : (a b : ℕ) → bit_and a b ≡ 2 * bit_and (a / 2) (b / 2) + min (a % 2) (b % 2)
bit_and-halves zero b = omega (arith, bit_and-bitwise 0 b, bit_and-bitwise (0 / 2) (b / 2))
bit_and-halves (suc a) b = omega (
  arith,
  bit_and-bitwise (suc a) b,
  bit_and-bitwise (suc a / 2) (b / 2),
  common_enough a (suc a / 2) (b / 2) (omega arith),
)

bit_and-zero : (a : ℕ) → bit_and a 0 ≡ 0
bit_and-zero a = bounded a a (omega arith)
  where
    bounded : (n a : ℕ) → a ≤ n → bit_and a 0 ≡ 0
    bounded n zero h = refl
    bounded zero (suc a) h = absurd (omega arith)
    bounded (suc n) (suc a) h =
        omega (arith, bit_and-halves (suc a) 0, bounded n (suc a / 2) (omega arith))

bit_and-double : (a m : ℕ) → bit_and a (2 * m) ≡ 2 * bit_and (a / 2) m
bit_and-double a m =
    let half : 2 * m / 2 ≡ m = omega arith in
    omega (arith, bit_and-halves a (2 * m), ap (λ (t : ℕ). bit_and (a / 2) t) half)

two-pow-suc : (k m : ℕ) → 2 ^ suc k * m ≡ 2 * (2 ^ k * m)
two-pow-suc k m = omega (arith, ap (λ (t : ℕ). t * m) (pow-suc 2 k))

div-two-pow-suc : (k a : ℕ) → a / 2 / 2 ^ k ≡ a / 2 ^ suc k
div-two-pow-suc k a =
    let e : 2 * 2 ^ k ≡ 2 ^ suc k = omega (arith, pow-suc 2 k) in
    div-div-eq-div-mul a 2 (2 ^ k) ∙ ap (λ (t : ℕ). a / t) e

-- A mask with `k` zeros below sees the number without its `k` lowest digits.
pub bit_and-shifted : (k a m : ℕ) → bit_and a (2 ^ k * m) ≡ 2 ^ k * bit_and (a / 2 ^ k) m
bit_and-shifted zero a m =
    let e : 1 * m ≡ m = omega arith in
    let d : a / 1 ≡ a = omega arith in
    omega (arith, ap (λ (t : ℕ). bit_and a t) e, ap (λ (t : ℕ). bit_and t m) d)
bit_and-shifted (suc k) a m = rw (two-pow-suc k m) (
    omega (
      arith,
      bit_and-double a (2 ^ k * m),
      bit_and-shifted k (a / 2) m,
      two-pow-suc k (bit_and (a / 2 ^ suc k) m),
      ap (λ (t : ℕ). 2 ^ k * bit_and t m) (div-two-pow-suc k a),
    ))

-- A mask of `k` ones is the remainder by `2 ^ k`.
pub bit_and-ones : (k a : ℕ) → bit_and a (2 ^ k - 1) ≡ a % 2 ^ k
bit_and-ones zero a = omega (arith, bit_and-zero a)
bit_and-ones (suc k) a =
    let half : (2 ^ suc k - 1) / 2 ≡ 2 ^ k - 1 = omega (arith, pow-suc 2 k, one-le-pow k 2) in
    omega (
      arith,
      bit_and-halves a (2 ^ suc k - 1),
      ap (λ (t : ℕ). bit_and (a / 2) t) half,
      bit_and-ones k (a / 2),
      pow-suc 2 k,
      one-le-pow k 2,
      div-add-mod a (2 ^ suc k),
      div-add-mod (a / 2) (2 ^ k),
      two-pow-suc k (a / 2 ^ suc k),
      ap (λ (t : ℕ). 2 ^ k * t) (div-two-pow-suc k a),
    )
