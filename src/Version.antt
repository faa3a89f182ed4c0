-- ===== src/Version.antt =====
-- The version of the firmware: app/build.rs reads it from the file VERSION and hands its text to the
-- compiler, and app/src/lib.rs parses that text. What the compiler refuses, or what stops the build, is
-- `none`. A text is ASCII.
pub mod Same
use garagelight.Prelude.{
  ℕ, ◌+◌, ◌-◌, ◌*◌, ◌^◌, [], ◌∷◌, Option, none, some, ◌>>=◌, leb, ltb, ◌&&◌, not, if◌then◌else◌,
  Bytes,
}
use garagelight.Prelude.Trim.{trim}
use garagelight.Decimal.{decimal, parse_uint}

abbrev u32_max : ℕ
u32_max = 2 ^ 32 - 1

-- The text that `main` prints behind `GARAGELIGHT_BUILD_VERSION=`.
unfoldable pub build_version : Bytes → Option Bytes
build_version raw = parse_uint u32_max (trim raw) >>= λ version. some (decimal version)

-- The loop of `parse_u32`, behind `n`. The compiler refuses an overflow of the constant.
unfoldable pub parse_u32_from : ℕ → Bytes → Option ℕ
parse_u32_from n [] = some n
parse_u32_from n (b ∷ bytes) =
    let rest = parse_u32_from (n * 10 + (b - b'0')) bytes in
    if not (ltb b b'0') && leb (n * 10 + (b - b'0')) u32_max then rest else none

unfoldable pub parse_u32 : Bytes → Option ℕ
unfolding parse_u32_from
parse_u32 s = parse_u32_from 0 s

-- The constant VERSION, by the text of the file.
unfoldable pub version : Bytes → Option ℕ
unfolding build_version parse_u32
version raw = build_version raw >>= λ text. parse_u32 text
