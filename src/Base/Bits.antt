-- ===== src/Base/Bits.antt =====
-- The binary digits of `|`: a number whose low digits are 0 takes them from the other.
use Prim.Native.Nat.{
  ℕ, zero, suc, ◌+◌, ◌*◌, ◌/◌, ◌%◌, ◌≤◌, ◌<◌, max, bit_or, digits, bit_or-bitwise,
}
use mathlib.Core.Path.{◌≡◌, refl}
use native.Mathlib.Omega.{arith}

-- More rounds than digits change nothing.
or_rounds : (m n a b : ℕ) → a ≤ m → a ≤ n → digits (λ y. y) max m a b ≡ digits (λ y. y) max n a b
or_rounds zero zero a b h g = refl
or_rounds zero (suc n) zero b h g = refl
or_rounds zero (suc n) (suc a) b h g = absurd (omega (arith, h))
or_rounds (suc m) zero zero b h g = refl
or_rounds (suc m) zero (suc a) b h g = absurd (omega (arith, g))
or_rounds (suc m) (suc n) zero b h g = refl
or_rounds (suc m) (suc n) (suc a) b h g =
    omega (arith, or_rounds m n (suc a / 2) (b / 2) (omega (arith, h)) (omega (arith, g)))

bit_or_zero : (b : ℕ) → bit_or 0 b ≡ b
bit_or_zero b = bit_or-bitwise 0 b

pub bit_or_digit : (a b : ℕ) → bit_or a b ≡ bit_or (a / 2) (b / 2) * 2 + max (a % 2) (b % 2)
bit_or_digit zero b = omega (arith, bit_or_zero b, bit_or_zero (b / 2))
bit_or_digit (suc a) b = omega (
  arith,
  bit_or-bitwise (suc a) b,
  bit_or-bitwise (suc a / 2) (b / 2),
  or_rounds a (suc a / 2) (suc a / 2) (b / 2) (omega arith) (omega arith),
)

bit_or-none : (m a : ℕ) → a ≤ m → bit_or a 0 ≡ a
bit_or-none m zero h = bit_or_zero 0
bit_or-none zero (suc a) h = absurd (omega (arith, h))
bit_or-none (suc m) (suc a) h =
    omega (arith, bit_or_digit (suc a) 0, bit_or-none m (suc a / 2) (omega (arith, h)))

-- The `k` low digits of `x` are 0, and `f` has no others.
abbrev pub IsApart : ℕ → ℕ → ℕ → Type 0
IsApart zero x f = f ≡ 0
IsApart (suc k) x f = (x % 2 ≡ 0) × IsApart k (x / 2) (f / 2)

pub bit_or-IsApart : (k x f : ℕ) → IsApart k x f → bit_or x f ≡ x + f
bit_or-IsApart zero x f h = rw h (omega (arith, bit_or-none x x (omega arith)))
bit_or-IsApart (suc k) x f h =
    omega (arith, bit_or_digit x f, bit_or-IsApart k (x / 2) (f / 2) h.1, h.0)

-- Ten digits, the flags of a page table entry.
pub bit_or-flags : (n f : ℕ) → f < 1024 → bit_or (n * 1024) f ≡ n * 1024 + f
bit_or-flags n f h = bit_or-IsApart 10 (n * 1024) f (
  omega arith,
  (
    omega arith,
    (
      omega arith,
      (
        omega arith,
        (
          omega arith,
          (
            omega arith,
            (omega arith, (omega arith, (omega arith, (omega arith, omega (arith, h))))),
          ),
        ),
      ),
    ),
  ),
)
