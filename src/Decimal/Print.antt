-- ===== src/Decimal/Print.antt =====
-- What `decimal` prints: digits, with the right value, and not too many.
use native.Mathlib.Nat.{pow-suc}
use garagelight.Prelude.{
  ℕ, zero, suc, ◌+◌, ◌-◌, ◌*◌, ◌/◌, ◌%◌, ◌^◌, ◌≤◌, ◌<◌, ◌≡◌, ◌≢◌, refl, true, [], ◌∷◌, arith, Bytes,
  IsDigit, is_ascii_digit, All, all, length,
}
use garagelight.Decimal.{digits_onto, decimal, value}

value-digits_onto :
    (fuel n : ℕ) (out : Bytes) → n < fuel → value 0 (digits_onto fuel n out) ≡ value n out
unfolding digits_onto
value-digits_onto zero n out h = absurd (omega arith)
value-digits_onto (suc fuel) n out h =
    ground (arith, value-digits_onto fuel (n / 10) ((b'0' + n % 10) ∷ out))

pub le-value : (s : Bytes) (acc : ℕ) → acc ≤ value acc s
le-value [] acc = omega arith
le-value (b ∷ s) acc = omega (arith, le-value s (acc * 10 + (b - b'0')))

-- A decimal print has the value of the number.
pub value-decimal : (n : ℕ) → value 0 (decimal n) ≡ n
unfolding decimal
value-decimal n = value-digits_onto (suc n) n [] (omega arith)

IsDigit-digits_onto :
    (fuel n : ℕ) (out : Bytes) → All IsDigit out → All IsDigit (digits_onto fuel n out)
unfolding digits_onto
IsDigit-digits_onto zero n out h = h
IsDigit-digits_onto (suc fuel) n out h =
    ground (arith, IsDigit-digits_onto fuel (n / 10) ((b'0' + n % 10) ∷ out))

pub decimal-IsDigit : (n : ℕ) → All IsDigit (decimal n)
unfolding decimal
decimal-IsDigit n = IsDigit-digits_onto (suc n) n [] tt

length-digits_onto :
    (k fuel n : ℕ) (out : Bytes)
    → n < 10 ^ suc k
    → length (digits_onto fuel n out) ≤ suc k + length out
unfolding digits_onto
length-digits_onto k zero n out h = omega arith
length-digits_onto zero (suc fuel) n out h = ground arith
length-digits_onto (suc k) (suc fuel) n out h =
    ground (arith, pow-suc 10 (suc k), length-digits_onto k fuel (n / 10) ((b'0' + n % 10) ∷ out))

-- A number below a power of ten has at most as many digits.
pub length-decimal-le : (k n : ℕ) → n < 10 ^ suc k → length (decimal n) ≤ suc k
unfolding decimal
length-decimal-le k n h = omega (arith, length-digits_onto k (suc n) n [] h)

digits_onto-ne-nil : (fuel n : ℕ) (out : Bytes) → out ≢ [] → digits_onto fuel n out ≢ []
unfolding digits_onto
digits_onto-ne-nil zero n out h = h
digits_onto-ne-nil (suc fuel) n out h =
    ground (arith, digits_onto-ne-nil fuel (n / 10) ((b'0' + n % 10) ∷ out))

pub decimal-ne-nil : (n : ℕ) → decimal n ≢ []
unfolding decimal digits_onto
decimal-ne-nil n = ground (arith, digits_onto-ne-nil n (n / 10) ((b'0' + n % 10) ∷ []))

pub all-digits : (s : Bytes) → All IsDigit s → all is_ascii_digit s ≡ true
all-digits [] h = refl
all-digits (b ∷ s) h = ground (arith, all-digits s)

pub IsDigit-all : (s : Bytes) → all is_ascii_digit s ≡ true → All IsDigit s
IsDigit-all [] h = tt
IsDigit-all (b ∷ s) h = ground (arith, IsDigit-all s)
