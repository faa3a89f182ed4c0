-- ===== src/Ota/Text/Sha.antt =====
-- `parse_sha256_hex` of core/src/ota/mod.rs reads exactly the lower-case hex print of 32 bytes.
use Prim.Native.Nat.{bit_or}
use garagelight.Prelude.{
  ==_iff, ℕ, zero, suc, ◌+◌, ◌-◌, ◌*◌, ◌/◌, ◌%◌, ◌^◌, ◌<◌, ◌≡◌, ◌↔◌, inl, inr, refl, ◌∙◌, ap, not,
  [], ◌∷◌, Option, none, some, ◌>>=◌, arith, Bytes, IsByte, All, Bool-cases, ltb, ◌==◌,
  if◌then◌else◌, length,
}
use garagelight.Prelude.Bits.{bit_or_shifted}
use garagelight.Ota.Text.{trim_ascii, hex_nibble, hex_bytes, parse_sha256_hex}

-- The lower-case digit of a number below 16.
abbrev hex_digit : ℕ → ℕ
hex_digit n = if ltb n 10 then b'0' + n else b'a' + (n - 10)

-- The lower-case hex print of a byte string.
abbrev pub hex : Bytes → Bytes
hex [] = []
hex (b ∷ bs) = hex_digit (b / 16) ∷ hex_digit (b % 16) ∷ hex bs

nibble_sound : (c n : ℕ) → hex_nibble c ≡ some n → (n < 16) × (c ≡ hex_digit n)
unfolding hex_nibble
nibble_sound c n e = ground arith

nibble_complete : (n : ℕ) → n < 16 → hex_nibble (hex_digit n) ≡ some n
unfolding hex_nibble
nibble_complete n h = ground arith

join_nibbles : (hi lo : ℕ) → hi < 16 → lo < 16 → bit_or (hi * 2 ^ 4 % 256) lo ≡ hi * 16 + lo
join_nibbles hi lo h l = omega (arith, bit_or_shifted 4 hi lo l, mod_fits)
  where
    mod_fits : bit_or (hi * 2 ^ 4 % 256) lo ≡ bit_or (hi * 2 ^ 4) lo
    mod_fits = ap (λ x. bit_or x lo) (omega arith)

length-hex : (d : Bytes) → length (hex d) ≡ 2 * length d
length-hex [] = omega arith
length-hex (b ∷ d) = omega (arith, length-hex d)

hex_bytes-hex : (d : Bytes) → All IsByte d → hex_bytes (hex d) ≡ some d
unfolding hex_bytes
hex_bytes-hex [] h = refl
hex_bytes-hex (b ∷ d) (h, hs) =
    rw
      (
        nibble_complete (b / 16) (omega arith),
        nibble_complete (b % 16) (omega arith),
        hex_bytes-hex d hs,
        join_nibbles (b / 16) (b % 16) (omega arith) (omega arith),
      )
      (ap (λ x. some (x ∷ d)) (omega arith))

pair_sound :
    (h l : ℕ) (s d : Bytes)
    → hex_bytes (h ∷ l ∷ s) ≡ some d
    → (b : ℕ) × (rest : Bytes) × (d ≡ b ∷ rest)
      × (b < 256)
      × (h ≡ hex_digit (b / 16))
      × (l ≡ hex_digit (b % 16))
      × (hex_bytes s ≡ some rest)
unfolding hex_bytes
pair_sound h l s d e = go (hex_nibble h) (hex_nibble l) (hex_bytes s) refl refl e
  where
    go :
        (x y : Option ℕ) (z : Option Bytes)
        → hex_nibble h ≡ x
        → hex_nibble l ≡ y
        → (x >>= λ hi. y >>= λ lo. z >>= λ rest. some (bit_or (hi * 2 ^ 4 % 256) lo ∷ rest))
          ≡ some d
        → (b : ℕ) × (rest : Bytes) × (d ≡ b ∷ rest)
          × (b < 256)
          × (h ≡ hex_digit (b / 16))
          × (l ≡ hex_digit (b % 16))
          × (z ≡ some rest)
    go (some hi) (some lo) (some rest) p q e =
        let (lh, eh) = nibble_sound h hi p in
        let (ll, el) = nibble_sound l lo q in
        (
          hi * 16 + lo,
          rest,
          cc (join_nibbles hi lo lh ll),
          omega arith,
          eh ∙ ap hex_digit (omega arith),
          el ∙ ap hex_digit (omega arith),
          refl,
        )
    go _ _ _ p q e = cc

hex_bytes_sound :
    (k : ℕ) (s d : Bytes)
    → length s ≡ 2 * k
    → hex_bytes s ≡ some d
    → (length d ≡ k) × All IsByte d × (s ≡ hex d)
hex_bytes_sound k [] d l e = unfold hex_bytes in ground arith
hex_bytes_sound k (h ∷ []) d l e = absurd (omega arith)
hex_bytes_sound zero (h ∷ c ∷ s) d l e = absurd (omega arith)
hex_bytes_sound (suc k) (h ∷ c ∷ s) d l e =
    let (b, rest, p, lt, q, r, z) = pair_sound h c s d e in
    let (n, bs, t) = hex_bytes_sound k s rest (omega arith) z in
    rw p (omega (arith, n), (lt, bs), cc)

-- A body is read as the digest `d` exactly when `d` has 32 bytes and the body, but for whitespace
-- around it, is their print in lower-case hex.
pub parse_sha256_hex_iff :
    (body d : Bytes)
    → (parse_sha256_hex body ≡ some d)
      ↔ ((length d ≡ 32) × All IsByte d × (trim_ascii body ≡ hex d))
unfolding parse_sha256_hex
parse_sha256_hex_iff body d = go (trim_ascii body)
  where
    go :
        (s : Bytes)
        → ((if not (length s == 64) then none else hex_bytes s) ≡ some d)
          ↔ ((length d ≡ 32) × All IsByte d × (s ≡ hex d))
    go s = (
      λ e. elim (Bool-cases (length s == 64)) [
        | inl fits ↦ hex_bytes_sound 32 s d ((==_iff (length s) 64).0 fits) (rw fits at e)
        | inr other ↦ cc (rw other at e)
      ],
      λ (n, bs, t).
          rw (t, (==_iff (length (hex d)) 64).1 (omega (arith, length-hex d))) (hex_bytes-hex d bs),
    )
