-- ===== src/Version/Same.antt =====
-- The version that the firmware has is the one that a device reads from a server with the same file:
-- app/build.rs, app/src/lib.rs and core/src/ota/mod.rs.
use garagelight.Prelude.{
  ℕ, ◌+◌, ◌-◌, ◌*◌, ◌^◌, ◌<◌, ◌≡◌, ◌∙◌, refl, ap, true, [], ◌∷◌, ◌++◌, some, arith, Bytes, All,
  All-map, IsDigit, is_ascii_whitespace, Option-cases, some_inj, inl, inr,
}
use garagelight.Prelude.Trim.{trim, IsInk, IsSpace, trim-around}
use garagelight.Decimal.{decimal, value, parse_uint}
use garagelight.Decimal.Print.{le-value, value-decimal, decimal-IsDigit, decimal-ne-nil}
use garagelight.Decimal.Parse.{parse_uint-decimal, parse_uint_le}
use garagelight.Ota.Text.{parse_version, skip, decide}
use garagelight.Ota.Text.Trim.{IsBlank}
use garagelight.Ota.Text.Version.{parse_version-decimal}
use garagelight.Version.{build_version, parse_u32_from, parse_u32, version}

parse_u32-value :
    (s : Bytes) (n : ℕ) → All IsDigit s → value n s < 2 ^ 32 → parse_u32_from n s ≡ some (value n s)
unfolding parse_u32_from
parse_u32-value [] n h l = refl
parse_u32-value (c ∷ s) n (d, h) l =
    ground (arith, le-value s (n * 10 + (c - b'0')), parse_u32-value s (n * 10 + (c - b'0')) h)

parse_u32-decimal : (n : ℕ) → n < 2 ^ 32 → parse_u32 (decimal n) ≡ some n
unfolding parse_u32
parse_u32-decimal n l =
    parse_u32-value (decimal n) 0 (decimal-IsDigit n) (omega (arith, value-decimal n))
    ∙ ap some (value-decimal n)

digit-IsInk : (c : ℕ) → IsDigit c → IsInk c
digit-IsInk c h = ground arith

blank-IsSpace : (c : ℕ) → is_ascii_whitespace c ≡ true → IsSpace c
blank-IsSpace c h = ground arith

-- Whatever file the build script accepts, the text that it hands on is the decimal print of a u32, and
-- the constant VERSION is that number.
pub version-build :
    (raw text : Bytes)
    → build_version raw ≡ some text
    → (n : ℕ) × (n < 2 ^ 32) × (text ≡ decimal n) × (version raw ≡ some n)
unfolding version build_version
version-build raw text e = elim (Option-cases (parse_uint (2 ^ 32 - 1) (trim raw))) [
  | inl q ↦ absurd (cc (e, q))
  | inr (n, q) ↦
      let small = parse_uint_le (2 ^ 32 - 1) (trim raw) n q in
      (
        n,
        omega (arith, small),
        some_inj (cc (e, q)),
        rw (version, q) (parse_u32-decimal n (omega (arith, small))),
      )
]

-- A file VERSION with a u32 in decimal, and ASCII white space around it, gives the firmware that number;
-- and a device that finds the same file on its server reads the same number, so that it skips the update.
pub version-decimal :
    (n : ℕ) (before behind : Bytes)
    → n < 2 ^ 32
    → IsBlank before
    → IsBlank behind
    → (version (before ++ (decimal n ++ behind)) ≡ some n)
      × (parse_version (before ++ (decimal n ++ behind)) ≡ some n)
      × (decide n n ≡ skip)
unfolding version build_version decide
version-decimal n before behind l hb hh = (
  rw (version, build_version, trimmed, parse_uint-decimal (2 ^ 32 - 1) n (omega arith))
      (parse_u32-decimal n l),
  parse_version-decimal n before behind l hb hh,
  ground arith,
)
  where
    trimmed : trim (before ++ (decimal n ++ behind)) ≡ decimal n
    trimmed =
        trim-around before (decimal n) behind (decimal-ne-nil n) (All-map blank-IsSpace before hb)
          (All-map digit-IsInk (decimal n) (decimal-IsDigit n)) (All-map blank-IsSpace behind hh)
