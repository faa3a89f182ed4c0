-- ===== src/Ota/Base64.antt =====
-- Base64 and Basic authorization: `base64_fill`, `base64` and `basic_authorization` of
-- core/src/ota/mod.rs. The output buffer is its list of bytes; a function that fills a prefix of
-- it returns the count and the buffer.
pub mod Groups
pub mod Encode
pub mod Decode
pub mod Basic
use Prim.Native.Nat.{bit_and, bit_or}
use garagelight.Prelude.{
  ℕ, zero, suc, ◌+◌, ◌*◌, ◌/◌, ◌^◌, Bool, true, false, ◌&&◌, List, [], ◌∷◌, ◌++◌, Option, none,
  some, ltb, if◌then◌else◌, Bytes, codes, get_or, length, take, drop, ◌>>=◌,
}

abbrev pub alphabet : Bytes
alphabet = codes "ABCDEFGHIJKLMNOPQRSTUVWXYZabcdefghijklmnopqrstuvwxyz0123456789+/"

-- A character of the alphabet; the index is below 64 wherever the code takes one.
unfoldable pub b64 : ℕ → ℕ
b64 i = get_or alphabet i 0

abbrev pub pad : ℕ
pad = b'='

-- A write of `bytes` at `offset`, within the buffer.
abbrev pub write_at : ℕ → Bytes → Bytes → Bytes
write_at offset bytes out = take offset out ++ (bytes ++ drop (offset + length bytes) out)

unfoldable pub unwrap_or : Option ℕ → ℕ
unwrap_or none = 0
unwrap_or (some b) = b

-- The four characters of one group.
unfoldable pub group : ℕ → Option ℕ → Option ℕ → Bytes
unfolding b64 unwrap_or
group b0 b1 b2 =
    let n = bit_or (bit_or (b0 * 2 ^ 16) (unwrap_or b1 * 2 ^ 8)) (unwrap_or b2) in
    b64 (bit_and (n / 2 ^ 18) 63)
    ∷ b64 (bit_and (n / 2 ^ 12) 63)
    ∷ elim b1 [ some _ ↦ b64 (bit_and (n / 2 ^ 6) 63) | none ↦ pad ]
    ∷ elim b2 [ some _ ↦ b64 (bit_and n 63) | none ↦ pad ]
    ∷ []

-- The closure `next` yields the bytes of a list and then nothing more.
unfoldable pub base64_fill : Bytes → ℕ → Bytes → Option (ℕ × Bytes)
unfolding group
base64_fill [] o out = some (o, out)
base64_fill (b0 ∷ []) o out =
    if ltb (length out) (o + 4) then none else some (o + 4, write_at o (group b0 none none) out)
base64_fill (b0 ∷ b1 ∷ []) o out =
    if ltb (length out) (o + 4)
    then none
    else some (o + 4, write_at o (group b0 (some b1) none) out)
base64_fill (b0 ∷ b1 ∷ b2 ∷ rest) o out =
    let next = base64_fill rest (o + 4) (write_at o (group b0 (some b1) (some b2)) out) in
    if ltb (length out) (o + 4) then none else next

unfoldable pub base64 : Bytes → Bytes → Option (ℕ × Bytes)
unfolding base64_fill
base64 input out = base64_fill input 0 out

abbrev pub prefix : Bytes
prefix = codes "Basic "

unfoldable pub is_empty : Bytes → Bool
is_empty [] = true
is_empty (_ ∷ _) = false

-- The code of the credentials behind the prefix: `&mut out[PREFIX.len()..]`.
unfoldable pub basic_fill : Bytes → Bytes → Bytes → Option (ℕ × Bytes)
unfolding base64_fill
basic_fill user pass out = do
  (n, tail) ← base64_fill (user ++ (b':' ∷ pass)) 0 (drop (length prefix) out)
  some (length prefix + n, take (length prefix) out ++ tail)

unfoldable pub basic_authorization : Bytes → Bytes → Bytes → Option (ℕ × Bytes)
unfolding basic_fill is_empty
basic_authorization user pass out =
    if is_empty user && is_empty pass
    then none
    else if ltb (length out) (length prefix)
    then none
    else basic_fill user pass (write_at 0 prefix out)
