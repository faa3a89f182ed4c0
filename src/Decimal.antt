-- ===== src/Decimal.antt =====
-- Decimal numbers: what `Display` of the standard library prints for an unsigned integer, and the
-- value of a string of digits; and `str::parse` for one.
pub mod Print
pub mod Parse
use garagelight.Prelude.{
  ℕ, zero, suc, ◌+◌, ◌-◌, ◌*◌, ◌/◌, ◌%◌, ◌&&◌, Bool, true, false, [], ◌∷◌, Option, none, some, ltb,
  leb, ◌==◌, if◌then◌else◌, Bytes, is_ascii_digit,
}

-- The digits of `n` in front of `out`; a number has at most as many digits as its successor counts.
digits_onto : ℕ → ℕ → Bytes → Bytes
digits_onto zero n out = out
digits_onto (suc fuel) n out = elim (ltb n 10) [
  | true ↦ (b'0' + n % 10) ∷ out
  | false ↦ digits_onto fuel (n / 10) ((b'0' + n % 10) ∷ out)
]

unfoldable pub decimal : ℕ → Bytes
unfolding digits_onto
decimal n = digits_onto (suc n) n []

-- The number that digits spell behind `acc`, with no bound.
abbrev pub value : ℕ → Bytes → ℕ
value acc [] = acc
value acc (b ∷ bs) = value (acc * 10 + (b - b'0')) bs

-- The digits of an unsigned type with the largest value `max`, behind `acc`.
unfoldable pub parse_digits : ℕ → ℕ → Bytes → Option ℕ
parse_digits max acc [] = some acc
parse_digits max acc (b ∷ bs) =
    let rest = parse_digits max (acc * 10 + (b - b'0')) bs in
    if is_ascii_digit b && leb (acc * 10 + (b - b'0')) max then rest else none

-- str::parse of an unsigned type: digits, one at least, and a `+` before them that is allowed.
unfoldable pub parse_uint : ℕ → Bytes → Option ℕ
parse_uint max [] = none
parse_uint max (b ∷ []) = if b == b'+' then none else parse_digits max 0 (b ∷ [])
parse_uint max (b ∷ c ∷ s) =
    if b == b'+' then parse_digits max 0 (c ∷ s) else parse_digits max 0 (b ∷ c ∷ s)
