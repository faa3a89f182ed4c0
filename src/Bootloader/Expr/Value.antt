-- ===== src/Bootloader/Expr/Value.antt =====
-- `eval_expr` of bootloader/build.rs computes the sum that an expression spells.
pub mod Words
pub mod Terms
use garagelight.Prelude.{
  ℕ, zero, suc, ◌+◌, ◌-◌, ◌*◌, ◌%◌, ◌^◌, ◌≤◌, ◌<◌, ◌≡◌, ◌≢◌, ◌∙◌, ◌⊎◌, inl, inr, refl, sym, ap,
  subst, Bool, true, false, not, ◌&&◌, ◌||◌, List, [], ◌∷◌, ◌++◌, append-nil, append_assoc, Option,
  none, some, arith, ltb, leb, ◌==◌, if◌then◌else◌, Bytes, codes, All, All-append, All-map, IsDigit,
  starts_with, is_empty, drop,
}
use garagelight.Prelude.Trim.{IsInk, trim-around}
use garagelight.Result.{Result, ok, err}
use garagelight.Decimal.{decimal, value}
use garagelight.Decimal.Print.{le-value, value-decimal, decimal-IsDigit, decimal-ne-nil}
use garagelight.Bootloader.{Panic, is_whitespace, trim_start, trim_end, trim}
use garagelight.Bootloader.Expr.{
  checked, decimal_digit, digits, from_radix, split_last, scaled, digits_value, parse_term,
}

pub trim-ink : (s : Bytes) → s ≢ [] → All IsInk s → trim s ≡ s
trim-ink s n h = ap trim (sym (append-nil s)) ∙ trim-around [] s [] n tt h tt

split_last-append : (s : Bytes) (c : ℕ) → split_last (s ++ (c ∷ [])) ≡ some (s, c)
unfolding split_last
split_last-append [] c = refl
split_last-append (d ∷ s) c = ground (arith, split_last-append s c)

split_last-digits :
    (s : Bytes)
    → s ≢ []
    → All IsDigit s
    → (front : Bytes) × (c : ℕ) × (split_last s ≡ some (front, c)) × IsDigit c
unfolding split_last
split_last-digits [] n h = absurd (n refl)
split_last-digits (c ∷ []) n h = ([], c, refl, h.0)
split_last-digits (c ∷ d ∷ s) n h =
    let (front, l, e, digit) = split_last-digits (d ∷ s) (λ e. cc e) h.1 in
    (c ∷ front, l, ground (arith, e), digit)

digits-value :
    (s : Bytes) (acc : ℕ)
    → All IsDigit s
    → value acc s < 2 ^ 63
    → digits decimal_digit 10 acc s ≡ some (value acc s)
unfolding digits
digits-value [] acc h l = refl
digits-value (c ∷ s) acc (d, h) l =
    ground (arith, le-value s (acc * 10 + (c - b'0')), digits-value s (acc * 10 + (c - b'0')) h)

no_prefix :
    (s : Bytes) → All IsDigit s → starts_with (codes "0x") s || starts_with (codes "0X") s ≡ false
unfolding starts_with
no_prefix [] h = refl
no_prefix (c ∷ []) h = ground arith
no_prefix (c ∷ d ∷ s) h = ground arith

digit-IsInk : (c : ℕ) → IsDigit c → IsInk c
digit-IsInk c h = ground arith

pub decimal-IsInk : (n : ℕ) → All IsInk (decimal n)
decimal-IsInk n = All-map digit-IsInk (decimal n) (decimal-IsDigit n)

from_radix-digits :
    (s : Bytes)
    → s ≢ []
    → All IsDigit s
    → value 0 s < 2 ^ 63
    → from_radix decimal_digit 10 s ≡ some (value 0 s)
unfolding from_radix
from_radix-digits [] n h l = absurd (n refl)
from_radix-digits (c ∷ s) n h l = digits-value (c ∷ s) 0 h l

digits_value-decimal : (n : ℕ) → n < 2 ^ 63 → digits_value (decimal n) ≡ some n
unfolding digits_value
digits_value-decimal n l =
    rw
      (
        digits_value,
        no_prefix (decimal n) (decimal-IsDigit n),
        trim-ink (decimal n) (decimal-ne-nil n) (decimal-IsInk n),
      )
      (from_radix-digits (decimal n) (decimal-ne-nil n) (decimal-IsDigit n) (rw (value-decimal n) l)
        ∙ ap some (value-decimal n))

-- What a number is multiplied by.
pub data Scale : Type 0 where
  one kilo mega : Scale

abbrev pub suffix : Scale → Bytes
suffix one = []
suffix kilo = codes "K"
suffix mega = codes "M"

abbrev pub factor : Scale → ℕ
factor one = 1
factor kilo = 1024
factor mega = 1024 * 1024

scaled-digit :
    (s front : Bytes) (c : ℕ) → split_last s ≡ some (front, c) → IsDigit c → scaled s ≡ (s, 1)
unfolding scaled
scaled-digit s front c e digit = ground (arith, e, digit)

scaled-decimal : (n : ℕ) (u : Scale) → scaled (decimal n ++ suffix u) ≡ (decimal n, factor u)
unfolding scaled
scaled-decimal n kilo = rw (scaled, split_last-append (decimal n) b'K') refl
scaled-decimal n mega = rw (scaled, split_last-append (decimal n) b'M') refl
scaled-decimal n one =
    let (front, c, e, digit) =
      split_last-digits (decimal n) (decimal-ne-nil n) (decimal-IsDigit n) in
    ap scaled (append-nil (decimal n)) ∙ scaled-digit (decimal n) front c e digit

le-factor : (n : ℕ) (u : Scale) → n ≤ n * factor u
le-factor n one = omega arith
le-factor n kilo = omega arith
le-factor n mega = omega arith

pub parse_term-decimal :
    (n : ℕ) (u : Scale)
    → n * factor u < 2 ^ 63
    → parse_term (decimal n ++ suffix u) ≡ ok (n * factor u)
unfolding parse_term
parse_term-decimal n u l =
    rw (parse_term, scaled-decimal n u, digits_value-decimal n (omega (arith, le-factor n u))) fits
  where
    fits : checked (n * factor u) ≡ ok (n * factor u)
    fits = ground arith
