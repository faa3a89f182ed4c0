-- ===== src/Prelude/Bits.antt =====
-- Laws of `|` and of a six-bit mask, for the fields that the sources pack into one word.
use Prim.Native.Nat.{
  ℕ, zero, suc, ◌+◌, ◌*◌, ◌/◌, ◌%◌, ◌^◌, ◌≤◌, ◌<◌, min, max, bit_and, bit_or, digits,
  bit_and-bitwise, bit_or-bitwise,
}
use mathlib.Core.Path.{◌≡◌, refl, sym, ap}
use native.Mathlib.Nat.{pow-suc, mul_assoc}
use native.Mathlib.Omega.{arith}

-- The two operations stand for a recursion on the binary digits; its fuel does not matter once it
-- covers the first number.
module _ (edge : ℕ → ℕ) (op : ℕ → ℕ → ℕ) where
  digits_fuel : (n m a b : ℕ) → a ≤ n → a ≤ m → digits edge op n a b ≡ digits edge op m a b
  digits_fuel zero zero a b p q = refl
  digits_fuel (suc n) zero zero b p q = refl
  digits_fuel zero (suc m) zero b p q = refl
  digits_fuel (suc n) (suc m) zero b p q = refl
  digits_fuel zero (suc m) (suc a) b p q = absurd (omega arith)
  digits_fuel (suc n) zero (suc a) b p q = absurd (omega arith)
  digits_fuel (suc n) (suc m) (suc a) b p q =
      omega (arith, digits_fuel n m (suc a / 2) (b / 2) (omega arith) (omega arith))

bit_or_zero_left : (b : ℕ) → bit_or 0 b ≡ b
bit_or_zero_left b = bit_or-bitwise 0 b

bit_or_halves : (a b : ℕ) → bit_or a b ≡ bit_or (a / 2) (b / 2) * 2 + max (a % 2) (b % 2)
bit_or_halves zero b = omega (arith, bit_or_zero_left b, bit_or_zero_left (b / 2))
bit_or_halves (suc a) b = omega (
  arith,
  bit_or-bitwise (suc a) b,
  bit_or-bitwise (suc a / 2) (b / 2),
  digits_fuel (λ b. b) max a (suc a / 2) (suc a / 2) (b / 2) (omega arith) (omega arith),
)

bit_or_zero_fuel : (n a : ℕ) → a ≤ n → bit_or a 0 ≡ a
bit_or_zero_fuel n zero h = bit_or_zero_left 0
bit_or_zero_fuel zero (suc a) h = absurd (omega arith)
bit_or_zero_fuel (suc n) (suc a) h =
    omega (arith, bit_or_halves (suc a) 0, bit_or_zero_fuel n (suc a / 2) (omega arith))

bit_or_zero : (a b : ℕ) → b < 1 → bit_or a b ≡ a + b
bit_or_zero a zero h = omega (arith, bit_or_zero_fuel a a (omega arith))
bit_or_zero a (suc b) h = absurd (omega arith)

half_lt : (k b : ℕ) → b < 2 ^ suc k → b / 2 < 2 ^ k
half_lt k b h = omega (arith, pow-suc 2 k)

-- A number below `2 ^ k` fills the gap that a shift by `k` leaves.
pub bit_or_shifted : (k a b : ℕ) → b < 2 ^ k → bit_or (a * 2 ^ k) b ≡ a * 2 ^ k + b
bit_or_shifted zero a b h = bit_or_zero (a * 1) b h
bit_or_shifted (suc k) a b h = omega (
  arith,
  doubled,
  bit_or_halves (a * 2 ^ suc k) b,
  ap (λ x. bit_or x (b / 2)) halved,
  bit_or_shifted k a (b / 2) (half_lt k b h),
)
  where
    doubled : a * 2 ^ suc k ≡ a * 2 ^ k * 2
    doubled = rw pow-suc (sym (mul_assoc a (2 ^ k) 2))

    halved : a * 2 ^ suc k / 2 ≡ a * 2 ^ k
    halved = omega (arith, doubled)

bit_and_zero_left : (b : ℕ) → bit_and 0 b ≡ 0
bit_and_zero_left b = bit_and-bitwise 0 b

bit_and_halves : (a b : ℕ) → bit_and a b ≡ bit_and (a / 2) (b / 2) * 2 + min (a % 2) (b % 2)
bit_and_halves zero b = omega (arith, bit_and_zero_left b, bit_and_zero_left (b / 2))
bit_and_halves (suc a) b = omega (
  arith,
  bit_and-bitwise (suc a) b,
  bit_and-bitwise (suc a / 2) (b / 2),
  digits_fuel (λ b. 0) min a (suc a / 2) (suc a / 2) (b / 2) (omega arith) (omega arith),
)

bit_and_zero_fuel : (n a : ℕ) → a ≤ n → bit_and a 0 ≡ 0
bit_and_zero_fuel n zero h = bit_and_zero_left 0
bit_and_zero_fuel zero (suc a) h = absurd (omega arith)
bit_and_zero_fuel (suc n) (suc a) h =
    omega (arith, bit_and_halves (suc a) 0, bit_and_zero_fuel n (suc a / 2) (omega arith))

bit_and_one : (a : ℕ) → bit_and a 1 ≡ a % 2
bit_and_one a = omega (arith, bit_and_halves a 1, bit_and_zero_fuel (a / 2) (a / 2) (omega arith))

bit_and_seven : (a : ℕ) → bit_and a 7 ≡ a % 8
bit_and_seven a =
    omega (arith, bit_and_halves a 7, bit_and_halves (a / 2) 3, bit_and_one (a / 2 / 2))

pub bit_and_63 : (a : ℕ) → bit_and a 63 ≡ a % 64
bit_and_63 a = omega (
  arith,
  bit_and_halves a 63,
  bit_and_halves (a / 2) 31,
  bit_and_halves (a / 2 / 2) 15,
  bit_and_seven (a / 2 / 2 / 2),
)
