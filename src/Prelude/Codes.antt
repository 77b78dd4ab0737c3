-- ===== src/Prelude/Codes.antt =====
-- C integers: wrap-around of the unsigned types, and the `int` that a function returns.
use Prim.Native.Nat.{ℕ, zero, suc, ◌%◌, ◌^◌}
use mathlib.Core.Path.{◌≡◌, refl}
use mathlib.Core.Bool.{Bool, true, false}

abbrev pub u8 : ℕ → ℕ
u8 n = n % 2 ^ 8

abbrev pub u16 : ℕ → ℕ
u16 n = n % 2 ^ 16

abbrev pub u32 : ℕ → ℕ
u32 n = n % 2 ^ 32

abbrev pub u64 : ℕ → ℕ
u64 n = n % 2 ^ 64

-- `negsuc n` is -(n + 1).
pub data ℤ : Type 0 where
  pos : ℕ → ℤ
  negsuc : ℕ → ℤ

abbrev pub is_neg : ℤ → Bool
is_neg (pos n) = false
is_neg (negsuc n) = true

abbrev pub is_zero : ℤ → Bool
is_zero (pos zero) = true
is_zero (pos (suc n)) = false
is_zero (negsuc n) = false

-- `-e` for an errno value.
abbrev pub minus : ℕ → ℤ
minus zero = pos 0
minus (suc n) = negsuc n

-- The errno values of Linux that the dataplane returns, each without its sign.
abbrev pub eio : ℕ
eio = 5

abbrev pub enomem : ℕ
enomem = 12

abbrev pub ebusy : ℕ
ebusy = 16

abbrev pub eexist : ℕ
eexist = 17

abbrev pub exdev : ℕ
exdev = 18

abbrev pub enodev : ℕ
enodev = 19

abbrev pub einval : ℕ
einval = 22

abbrev pub enospc : ℕ
enospc = 28

abbrev pub enotsup : ℕ
enotsup = 95

abbrev pub ealready : ℕ
ealready = 114

-- `-(rte_errno ? rte_errno : e)`
abbrev pub errno_or : ℕ → ℕ → ℤ
errno_or zero e = minus e
errno_or (suc n) e = negsuc n

pub errno_or-neg : (e k : ℕ) → is_neg (errno_or e (suc k)) ≡ true
errno_or-neg zero k = refl
errno_or-neg (suc e) k = refl
