-- ===== src/Decimal/Parse.antt =====
-- `parse_uint` reads back what `decimal` prints, and gives no number above its bound.
use garagelight.Prelude.{
  ℕ, ◌+◌, ◌-◌, ◌*◌, ◌≤◌, ◌≡◌, ◌≢◌, refl, ◌∙◌, ap, [], ◌∷◌, some, arith, Bytes, All, IsDigit,
}
use garagelight.Decimal.{decimal, value, parse_digits, parse_uint}
use garagelight.Decimal.Print.{le-value, value-decimal, decimal-IsDigit, decimal-ne-nil}

parse_digits-value :
    (max : ℕ) (s : Bytes) (acc : ℕ)
    → All IsDigit s
    → value acc s ≤ max
    → parse_digits max acc s ≡ some (value acc s)
unfolding parse_digits
parse_digits-value max [] acc h l = refl
parse_digits-value max (b ∷ s) acc (d, h) l =
    let next = acc * 10 + (b - b'0') in
    ground (arith, le-value s next, parse_digits-value max s next h)

parse_uint-digits :
    (max : ℕ) (s : Bytes) → s ≢ [] → All IsDigit s → parse_uint max s ≡ parse_digits max 0 s
unfolding parse_uint
parse_uint-digits max [] n h = absurd (n refl)
parse_uint-digits max (b ∷ []) n h = ground arith
parse_uint-digits max (b ∷ c ∷ s) n h = ground arith

pub parse_uint-decimal : (max n : ℕ) → n ≤ max → parse_uint max (decimal n) ≡ some n
parse_uint-decimal max n h =
    parse_uint-digits max (decimal n) (decimal-ne-nil n) (decimal-IsDigit n)
    ∙ parse_digits-value max (decimal n) 0 (decimal-IsDigit n) (rw (value-decimal n) h)
    ∙ ap some (value-decimal n)

parse_digits_le :
    (max acc : ℕ) (s : Bytes) (n : ℕ) → acc ≤ max → parse_digits max acc s ≡ some n → n ≤ max
unfolding parse_digits
parse_digits_le max acc [] n h e = ground arith
parse_digits_le max acc (b ∷ s) n h e =
    ground (arith, parse_digits_le max (acc * 10 + (b - b'0')) s n)

pub parse_uint_le : (max : ℕ) (s : Bytes) (n : ℕ) → parse_uint max s ≡ some n → n ≤ max
unfolding parse_uint
parse_uint_le max [] n e = cc
parse_uint_le max (b ∷ []) n e = ground (arith, parse_digits_le max 0 (b ∷ []) n)
parse_uint_le max (b ∷ c ∷ s) n e =
    ground (arith, parse_digits_le max 0 (b ∷ c ∷ s) n, parse_digits_le max 0 (c ∷ s) n)
