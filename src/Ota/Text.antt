-- ===== src/Ota/Text.antt =====
-- The short text bodies of an update: `trim_ascii`, `parse_version`, `parse_sha256_hex` and
-- `decide` of core/src/ota/mod.rs.
pub mod Trim
pub mod Version
pub mod Sha
use Prim.Native.Nat.{bit_or}
use garagelight.Prelude.{
  ℕ, ◌+◌, ◌-◌, ◌*◌, ◌^◌, ◌%◌, ◌≤◌, Bool, true, false, not, ◌&&◌, ◌||◌, List, [], ◌∷◌, Option, none,
  some, ◌>>=◌, leb, ltb, ◌==◌, if◌then◌else◌, Bytes, length, all, is_ascii_whitespace,
  is_ascii_digit,
}

-- The loop on `start`.
trim_start : Bytes → Bytes
trim_start [] = []
trim_start (b ∷ bs) = if is_ascii_whitespace b then trim_start bs else b ∷ bs

is_empty : Bytes → Bool
is_empty [] = true
is_empty (_ ∷ _) = false

-- The loop on `end`: a byte goes when nothing but whitespace is behind it.
trim_end : Bytes → Bytes
unfolding is_empty
trim_end [] = []
trim_end (b ∷ bs) =
    let rest = trim_end bs in if is_empty rest && is_ascii_whitespace b then [] else b ∷ rest

unfoldable pub trim_ascii : Bytes → Bytes
unfolding trim_start trim_end
trim_ascii input = trim_end (trim_start input)

abbrev pub u32_max : ℕ
u32_max = 2 ^ 32 - 1

-- `checked_mul` and `checked_add` on an unsigned type with the largest value `m`.
abbrev pub checked_mul : ℕ → ℕ → ℕ → Option ℕ
checked_mul m a b = if leb (a * b) m then some (a * b) else none

abbrev pub checked_add : ℕ → ℕ → ℕ → Option ℕ
checked_add m a b = if leb (a + b) m then some (a + b) else none

-- The digit loop of `parse_version`.
accumulate : ℕ → Bytes → Option ℕ
accumulate value [] = some value
accumulate value (b ∷ bs) = do
  v ← checked_mul u32_max value 10
  v' ← checked_add u32_max v (b - b'0')
  accumulate v' bs

unfoldable pub parse_version : Bytes → Option ℕ
unfolding is_empty accumulate
parse_version body =
    let s = trim_ascii body in
    if is_empty s || not (all is_ascii_digit s) then none else accumulate 0 s

hex_nibble : ℕ → Option ℕ
hex_nibble b =
    if leb b'0' b && leb b b'9'
    then some (b - b'0')
    else if leb b'a' b && leb b b'f'
    then some (b - b'a' + 10)
    else none

-- The loop over the 32 bytes of `out`, two characters of `s` to a byte.
hex_bytes : Bytes → Option Bytes
unfolding hex_nibble
hex_bytes (h ∷ l ∷ s) = do
  hi ← hex_nibble h
  lo ← hex_nibble l
  rest ← hex_bytes s
  some (bit_or (hi * 2 ^ 4 % 256) lo ∷ rest)
hex_bytes _ = some []

unfoldable pub parse_sha256_hex : Bytes → Option Bytes
unfolding hex_bytes
parse_sha256_hex body =
    let s = trim_ascii body in if not (length s == 64) then none else hex_bytes s

pub data Decision : Type 0 where
  update skip : Decision

unfoldable pub decide : ℕ → ℕ → Decision
decide local remote = if not (remote == local) then update else skip
