-- ===== src/Ota/Base64/Decode.antt =====
-- The code that `base64` writes can be read back, and what `basic_authorization` of
-- core/src/ota/mod.rs sends.
use garagelight.Prelude.{
  take-append, ℕ, ◌+◌, ◌*◌, ◌/◌, ◌%◌, ◌<◌, ◌≡◌, refl, ◌∙◌, sym, ap, Bool, true, false, not, ◌&&◌,
  [], ◌∷◌, ◌++◌, Option, none, some, ◌>>=◌, arith, Bytes, IsByte, All, ltb, ◌==◌, if◌then◌else◌,
  length, take, drop, check_below, check_below_lem,
}
use garagelight.Ota.Base64.{b64, pad, alphabet, base64}
use garagelight.Ota.Base64.Encode.{length-encode, base64-encode}
use garagelight.Ota.Base64.Groups.{encode}

-- The place of a character in the alphabet, counted from `i`.
place : Bytes → ℕ → ℕ → Option ℕ
place [] i c = none
place (a ∷ rest) i c = if a == c then some i else place rest (i + 1) c

unb64 : ℕ → Option ℕ
unfolding place
unb64 c = place alphabet 0 c

-- A reader of base64 text.
pub decode : Bytes → Option Bytes
decode (w ∷ x ∷ y ∷ z ∷ rest) = do
  p ← unb64 w
  q ← unb64 x
  if y == pad then some ((p * 4 + q / 16) ∷ []) else (do
    r ← unb64 y
    if z == pad then some ((p * 4 + q / 16) ∷ (q % 16 * 16 + r / 4) ∷ []) else (do
      s ← unb64 z
      more ← decode rest
      some ((p * 4 + q / 16) ∷ (q % 16 * 16 + r / 4) ∷ (r % 4 * 64 + s) ∷ more)))
decode _ = some []

reads_back : ℕ → Bool
unfolding unb64 b64
reads_back i = not (b64 i == pad) && elim (unb64 (b64 i)) [ some j ↦ j == i | none ↦ false ]

table : check_below 64 reads_back ≡ true
unfolding check_below reads_back
table = refl

unb64-b64 : (i : ℕ) → i < 64 → (unb64 (b64 i) ≡ some i) × ((b64 i == pad) ≡ false)
unb64-b64 i h = split i (check_below_lem 64 reads_back i table h)
  where
    split : (i : ℕ) → reads_back i ≡ true → (unb64 (b64 i) ≡ some i) × ((b64 i == pad) ≡ false)
    split i e = unfold reads_back in ground arith

-- One group of the code, read back.
module _ (p q : ℕ) (hp : p < 64) (hq : q < 64) where
  decode_one : decode (b64 p ∷ b64 q ∷ pad ∷ pad ∷ []) ≡ some ((p * 4 + q / 16) ∷ [])
  unfolding decode
  decode_one = rw ((unb64-b64 p hp).0, (unb64-b64 q hq).0)

  decode_two :
      (r : ℕ)
      → r < 64
      → decode (b64 p ∷ b64 q ∷ b64 r ∷ pad ∷ [])
        ≡ some ((p * 4 + q / 16) ∷ (q % 16 * 16 + r / 4) ∷ [])
  unfolding decode
  decode_two r hr =
      rw ((unb64-b64 p hp).0, (unb64-b64 q hq).0, (unb64-b64 r hr).1, (unb64-b64 r hr).0)

  decode_three :
      (r s : ℕ) (rest : Bytes)
      → r < 64
      → s < 64
      → decode (b64 p ∷ b64 q ∷ b64 r ∷ b64 s ∷ rest) ≡ (
          decode rest >>= λ more.
          some ((p * 4 + q / 16) ∷ (q % 16 * 16 + r / 4) ∷ (r % 4 * 64 + s) ∷ more))
  unfolding decode
  decode_three r s rest hr hs = rw (
    (unb64-b64 p hp).0,
    (unb64-b64 q hq).0,
    (unb64-b64 r hr).1,
    (unb64-b64 r hr).0,
    (unb64-b64 s hs).1,
    (unb64-b64 s hs).0,
  )

decode-encode : (input : Bytes) → All IsByte input → decode (encode input) ≡ some input
decode-encode [] h = unfold decode in refl
decode-encode (a ∷ []) h =
    decode_one (a / 4) (a % 4 * 16) (omega arith) (omega arith) ∙ cc (same a (omega arith))
  where
    same : (a : ℕ) → a < 256 → a / 4 * 4 + a % 4 * 16 / 16 ≡ a
    same a h = omega arith
decode-encode (a ∷ b ∷ []) h =
    decode_two (a / 4) (a % 4 * 16 + b / 16) (omega arith) (omega arith) (b % 16 * 4) (omega arith)
    ∙ cc (one, two)
  where
    one : a / 4 * 4 + (a % 4 * 16 + b / 16) / 16 ≡ a
    one = omega arith

    two : (a % 4 * 16 + b / 16) % 16 * 16 + b % 16 * 4 / 4 ≡ b
    two = omega arith
decode-encode (a ∷ b ∷ c ∷ rest) h =
    decode_three (a / 4) (a % 4 * 16 + b / 16) (omega arith) (omega arith) (b % 16 * 4 + c / 64)
      (c % 64) (encode rest) (omega arith) (omega arith)
    ∙ rw (decode-encode rest h.1.1.1) (cc (one, two, three))
  where
    one : a / 4 * 4 + (a % 4 * 16 + b / 16) / 16 ≡ a
    one = omega arith

    two : (a % 4 * 16 + b / 16) % 16 * 16 + (b % 16 * 4 + c / 64) / 4 ≡ b
    two = omega arith

    three : (b % 16 * 4 + c / 64) % 4 * 64 + c % 64 ≡ c
    three = omega arith

abbrev read_result : Option (ℕ × Bytes) → Option Bytes
read_result none = none
read_result (some (n, out)) = decode (take n out)

read-encode :
    (input tail : Bytes)
    → All IsByte input
    → read_result (some ((length input + 2) / 3 * 4, encode input ++ tail)) ≡ some input
read-encode input tail h =
    rw (← length-encode input, take-append (encode input) tail) (decode-encode input h)

-- Whatever base64 writes into a buffer reads back as the input.
pub decode-base64 :
    (input out : Bytes) {n : ℕ} {out' : Bytes}
    → All IsByte input
    → base64 input out ≡ some (n, out')
    → decode (take n out') ≡ some input
decode-base64 input out {n} {out'} h e =
    sym (ap read_result e)
    ∙ ap read_result (base64-encode input out h)
    ∙ fits (sym (base64-encode input out h) ∙ e)
  where
    result : Bool → Option (ℕ × Bytes)
    result short =
        if short
        then none
        else some
            ((length input + 2) / 3 * 4, encode input ++ drop ((length input + 2) / 3 * 4) out)

    fits :
        result (ltb (length out) ((length input + 2) / 3 * 4)) ≡ some (n, out')
        → read_result (result (ltb (length out) ((length input + 2) / 3 * 4))) ≡ some input
    fits w = go (ltb (length out) ((length input + 2) / 3 * 4)) w
      where
        go : (b : Bool) → result b ≡ some (n, out') → read_result (result b) ≡ some input
        go true w = cc
        go false w = read-encode input _ h
