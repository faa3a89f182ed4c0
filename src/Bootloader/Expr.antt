-- ===== src/Bootloader/Expr.antt =====
-- `eval_expr` and `parse_term` of bootloader/build.rs. An i64 that overflows stops the build, as it
-- does where overflow is checked. `eval_expr` cuts at every sign, so a term has none.
pub mod Value
use garagelight.Prelude.{
  ℕ, zero, suc, ◌+◌, ◌-◌, ◌*◌, ◌%◌, ◌^◌, Bool, true, false, ◌&&◌, ◌||◌, List, [], ◌∷◌, ◌++◌, Option,
  none, some, ltb, leb, ◌==◌, if◌then◌else◌, Bytes, codes, length, drop, starts_with, is_empty, ℤ,
  pos, negsuc, is_ascii_digit,
}
use garagelight.Result.{Result, ok, err, ◌>>=◌, ok_or}
use garagelight.Bootloader.{Panic, bad_term, overflow, trim}

abbrev i64_max : ℕ
i64_max = 2 ^ 63 - 1

-- char::to_digit(16)
abbrev pub hex_digit : ℕ → Option ℕ
hex_digit c =
    if leb b'0' c && leb c b'9'
    then some (c - b'0')
    else if leb b'a' c && leb c b'f'
    then some (c - b'a' + 10)
    else if leb b'A' c && leb c b'F'
    then some (c - b'A' + 10)
    else none

abbrev pub decimal_digit : ℕ → Option ℕ
decimal_digit c = if is_ascii_digit c then some (c - b'0') else none

-- The digits of a number in a base, behind `acc`, up to the largest i64.
unfoldable pub digits : (ℕ → Option ℕ) → ℕ → ℕ → Bytes → Option ℕ
digits digit base acc [] = some acc
digits digit base acc (c ∷ s) = elim (digit c) [
  | none ↦ none
  | some d ↦ elim (leb (acc * base + d) i64_max) [
    | false ↦ none
    | true ↦ digits digit base (acc * base + d) s
  ]
]

-- i64::from_str_radix, and str::parse, of a text with no sign.
unfoldable pub from_radix : (ℕ → Option ℕ) → ℕ → Bytes → Option ℕ
unfolding digits
from_radix digit base [] = none
from_radix digit base (c ∷ s) = digits digit base 0 (c ∷ s)

-- The text without its last character, and that.
unfoldable pub split_last : Bytes → Option (Bytes × ℕ)
split_last [] = none
split_last (c ∷ s) = elim (split_last s) [
  | none ↦ some ([], c)
  | some (front, l) ↦ some (c ∷ front, l)
]

-- The digits and the scale of a term.
unfoldable pub scaled : Bytes → Bytes × ℕ
unfolding split_last
scaled term = elim (split_last term) [
  | none ↦ (term, 1)
  | some (front, c) ↦
      if c == b'K' || c == b'k'
      then (front, 1024)
      else if c == b'M' || c == b'm'
      then (front, 1024 * 1024)
      else (term, 1)
]

unfoldable pub digits_value : Bytes → Option ℕ
unfolding from_radix
digits_value s =
    if starts_with (codes "0x") s || starts_with (codes "0X") s
    then from_radix hex_digit 16 (trim (drop 2 s))
    else from_radix decimal_digit 10 (trim s)

-- `value * scale` in an i64.
abbrev pub checked : ℕ → Result Panic ℕ
checked n = if leb n i64_max then ok n else err overflow

unfoldable pub parse_term : Bytes → Result Panic ℕ
unfolding scaled digits_value
parse_term term =
    let (s, scale) = scaled term in
    ok_or (digits_value s) bad_term >>= λ value. checked (value * scale)

-- The variables of the loop. `minus` is whether `sign` is -1.
pub record Sum : Type 0 where
  pub total : ℤ
  pub minus : Bool
  pub term : Bytes

abbrev pub empty : Sum
empty = record { total = pos 0; minus = false; term = [] }

-- The integer, if it is an i64.
abbrev pub as_i64 : ℤ → Result Panic ℤ
as_i64 (pos n) = if leb n i64_max then ok (pos n) else err overflow
as_i64 (negsuc n) = if leb n i64_max then ok (negsuc n) else err overflow

-- `total + sign * value`.
unfoldable pub plus : ℤ → ℕ → ℤ
plus (pos n) k = pos (n + k)
plus (negsuc n) k = if leb k n then negsuc (n - k) else pos (k - suc n)

unfoldable pub less : ℤ → ℕ → ℤ
less (pos n) k = if leb k n then pos (n - k) else negsuc (k - n - 1)
less (negsuc n) k = negsuc (n + k)

unfoldable pub end_term : ℕ → Sum → Result Panic Sum
unfolding parse_term plus less
end_term ch s = elim (is_empty (trim s.term)) [
  | true ↦ ok (record s { minus = ch == b'-' })
  | false ↦ parse_term (trim s.term) >>= λ value.
      as_i64 (if s.minus then less s.total value else plus s.total value) >>= λ total.
      ok (record { total = total; minus = ch == b'-'; term = [] })
]

unfoldable pub push_char : ℕ → Sum → Result Panic Sum
unfolding end_term
push_char ch s =
    if ch == b'+' || ch == b'-' then end_term ch s else ok (record s { term = s.term ++ (ch ∷ []) })

unfoldable pub eval_loop : Bytes → Sum → Result Panic Sum
unfolding push_char
eval_loop [] s = ok s
eval_loop (ch ∷ later) s = elim (push_char ch s) [ err e ↦ err e | ok s' ↦ eval_loop later s' ]

-- `as u32`
abbrev pub as_u32 : ℤ → ℕ
as_u32 (pos n) = n % 2 ^ 32
as_u32 (negsuc n) = 2 ^ 32 - 1 - n % 2 ^ 32

unfoldable pub eval_expr : Bytes → Result Panic ℕ
unfolding eval_loop
eval_expr expr = eval_loop (expr ++ (b'+' ∷ [])) empty >>= λ s. ok (as_u32 s.total)
