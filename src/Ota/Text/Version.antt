-- ===== src/Ota/Text/Version.antt =====
-- `parse_version` of core/src/ota/mod.rs reads a decimal number that fits a u32, and nothing else.
use garagelight.Prelude.{
  sym, ℕ, ◌+◌, ◌-◌, ◌*◌, ◌^◌, ◌≤◌, ◌<◌, ◌≡◌, ◌≢◌, ◌↔◌, refl, true, not, ◌||◌, [], ◌∷◌, ◌++◌, none,
  some, arith, Bytes, IsDigit, is_ascii_digit, All, all, leb, if◌then◌else◌,
}
use garagelight.Decimal.{decimal, value}
use garagelight.Decimal.Print.{
  le-value, value-decimal, decimal-IsDigit, decimal-ne-nil, all-digits, IsDigit-all,
}
use garagelight.Ota.Text.{trim_ascii, is_empty, u32_max, accumulate, parse_version}
use garagelight.Ota.Text.Trim.{IsBlank, trim_ascii-digits}

accumulate-value :
    (s : Bytes) (acc : ℕ)
    → acc ≤ u32_max
    → accumulate acc s ≡ (if leb (value acc s) u32_max then some (value acc s) else none)
unfolding accumulate
accumulate-value [] acc h = ground arith
accumulate-value (b ∷ s) acc h =
    let next = acc * 10 + (b - b'0') in ground (arith, le-value s next, accumulate-value s next)

is_empty_iff : (s : Bytes) → (is_empty s ≡ true) ↔ (s ≡ [])
unfolding is_empty
is_empty_iff [] = (λ _. refl, λ _. refl)
is_empty_iff (b ∷ s) = (λ e. cc, λ e. cc)

-- A body is read as version `v` exactly when it is, but for whitespace around it, one or more
-- decimal digits with the value `v`, and `v` fits 32 bits. Nothing wraps around.
pub parse_version_iff :
    (body : Bytes) (v : ℕ)
    → (parse_version body ≡ some v) ↔ (
        (trim_ascii body ≢ [])
        × All IsDigit (trim_ascii body)
        × (v ≡ value 0 (trim_ascii body))
        × (v < 2 ^ 32))
unfolding parse_version
parse_version_iff body v = go (trim_ascii body)
  where
    go :
        (s : Bytes)
        → ((if is_empty s || not (all is_ascii_digit s) then none else accumulate 0 s) ≡ some v)
          ↔ ((s ≢ []) × All IsDigit s × (v ≡ value 0 s) × (v < 2 ^ 32))
    go [] = (λ e. cc, λ h. absurd (h.0 refl))
    go (b ∷ s) = (
      λ e. (
        λ n. cc,
        ground (arith, IsDigit-all (b ∷ s)),
        ground (arith, accumulate-value (b ∷ s) 0),
        ground (arith, accumulate-value (b ∷ s) 0),
      ),
      λ h. ground (arith, all-digits (b ∷ s) h.1, accumulate-value (b ∷ s) 0),
    )

-- Every u32 is read back from its decimal print, with any whitespace around it.
pub parse_version-decimal :
    (n : ℕ) (before behind : Bytes)
    → n < 2 ^ 32
    → IsBlank before
    → IsBlank behind
    → parse_version (before ++ (decimal n ++ behind)) ≡ some n
parse_version-decimal n before behind h w w' = (parse_version_iff _ n).1 (
    rw (trim_ascii-digits before (decimal n) behind w w' (decimal-IsDigit n) (decimal-ne-nil n))
      (decimal-ne-nil n, decimal-IsDigit n, sym (value-decimal n), h))
