-- ===== src/Ota/Base64/Groups.antt =====
-- The six-bit groups that `base64` of core/src/ota/mod.rs writes.
use Prim.Native.Nat.{bit_and, bit_or}
use garagelight.Prelude.{
  ap_at, ℕ, ◌+◌, ◌*◌, ◌/◌, ◌%◌, ◌^◌, ◌≡◌, ◌∙◌, ap, [], ◌∷◌, none, some, arith, Bytes, IsByte,
}
use garagelight.Prelude.Bits.{bit_or_shifted, bit_and_63}
use garagelight.Ota.Base64.{b64, pad, group}

-- The encoding by six-bit groups, with no buffer and no shifts.
abbrev pub encode : Bytes → Bytes
encode [] = []
encode (a ∷ []) = b64 (a / 4) ∷ b64 (a % 4 * 16) ∷ pad ∷ pad ∷ []
encode (a ∷ b ∷ []) = b64 (a / 4) ∷ b64 (a % 4 * 16 + b / 16) ∷ b64 (b % 16 * 4) ∷ pad ∷ []
encode (a ∷ b ∷ c ∷ rest) =
    b64 (a / 4) ∷ b64 (a % 4 * 16 + b / 16) ∷ b64 (b % 16 * 4 + c / 64) ∷ b64 (c % 64) ∷ encode rest

packed :
    (a b c : ℕ)
    → IsByte b
    → IsByte c
    → bit_or (bit_or (a * 2 ^ 16) (b * 2 ^ 8)) c ≡ a * 65536 + b * 256 + c
packed a b c hb hc =
    ap (λ x. bit_or x c) (bit_or_shifted 16 a (b * 2 ^ 8) (omega arith) ∙ omega arith)
    ∙ bit_or_shifted 8 (a * 256 + b) c (omega arith)
    ∙ omega arith

-- The four six-bit fields of a packed word.
module _ (n a b c : ℕ) (e : n ≡ a * 65536 + b * 256 + c) (ha : IsByte a) (hb : IsByte b)
    (hc : IsByte c) where
  first : b64 (bit_and (n / 2 ^ 18) 63) ≡ b64 (a / 4)
  first = ap b64 (bit_and_63 _ ∙ omega arith)

  second : b64 (bit_and (n / 2 ^ 12) 63) ≡ b64 (a % 4 * 16 + b / 16)
  second = ap b64 (bit_and_63 _ ∙ omega arith)

  third : b64 (bit_and (n / 2 ^ 6) 63) ≡ b64 (b % 16 * 4 + c / 64)
  third = ap b64 (bit_and_63 _ ∙ omega arith)

  fourth : b64 (bit_and n 63) ≡ b64 (c % 64)
  fourth = ap b64 (bit_and_63 _ ∙ omega arith)

abbrev pub four_of : ℕ → ℕ → ℕ → Bytes
four_of a b c =
    b64 (a / 4) ∷ b64 (a % 4 * 16 + b / 16) ∷ b64 (b % 16 * 4 + c / 64) ∷ b64 (c % 64) ∷ []

pub group_three :
    (a b c : ℕ)
    → IsByte a
    → IsByte b
    → IsByte c
    → group a (some b) (some c)
      ≡ b64 (a / 4) ∷ b64 (a % 4 * 16 + b / 16) ∷ b64 (b % 16 * 4 + c / 64) ∷ b64 (c % 64) ∷ []
unfolding group
group_three a b c ha hb hc =
    let n = bit_or (bit_or (a * 2 ^ 16) (b * 2 ^ 8)) c in
    let e : n ≡ a * 65536 + b * 256 + c = packed a b c hb hc in
    cc (
      first n a b c e ha hb hc,
      second n a b c e ha hb hc,
      third n a b c e ha hb hc,
      fourth n a b c e ha hb hc,
    )

pub group_two : (a b : ℕ) → IsByte a → IsByte b → group a (some b) none ≡ encode (a ∷ b ∷ [])
unfolding group
group_two a b ha hb =
    let n = bit_or (bit_or (a * 2 ^ 16) (b * 2 ^ 8)) 0 in
    let e : n ≡ a * 65536 + b * 256 + 0 = packed a b 0 hb (omega arith) in
    let third' : b64 (b % 16 * 4 + 0 / 64) ≡ b64 (b % 16 * 4) =
      ap_at b64 (b % 16 * 4 + 0 / 64) (b % 16 * 4) (omega arith) in
    cc (
      first n a b 0 e ha hb (omega arith),
      second n a b 0 e ha hb (omega arith),
      third n a b 0 e ha hb (omega arith),
      third',
    )

pub group_one : (a : ℕ) → IsByte a → group a none none ≡ encode (a ∷ [])
unfolding group
group_one a ha =
    let n = bit_or (bit_or (a * 2 ^ 16) (0 * 2 ^ 8)) 0 in
    let e : n ≡ a * 65536 + 0 * 256 + 0 = packed a 0 0 (omega arith) (omega arith) in
    let second' : b64 (a % 4 * 16 + 0 / 16) ≡ b64 (a % 4 * 16) =
      ap_at b64 (a % 4 * 16 + 0 / 16) (a % 4 * 16) (omega arith) in
    cc (
      first n a 0 0 e ha (omega arith) (omega arith),
      second n a 0 0 e ha (omega arith) (omega arith),
      second',
    )
