-- ===== src/Telemetry/Payload.antt =====
-- The payload of a sample always fits: core/src/telemetry.rs.
use garagelight.Prelude.{
  concat, ℕ, suc, ◌+◌, ◌^◌, ◌≤◌, ◌<◌, ◌≡◌, inl, inr, refl, ◌∙◌, ap, true, false, List, [], ◌∷◌,
  ◌++◌, append_assoc, append-nil, none, some, arith, ltb, if◌then◌else◌, Bytes, codes, length,
  length-append, ℤ, pos, negsuc, ◌≤ℤ◌, Bool-cases,
}
use garagelight.Decimal.{decimal}
use garagelight.Decimal.Print.{length-decimal-le}
use garagelight.Sensor.{Sample}
use garagelight.Telemetry.{write_pieces, encode_sample, signed}

write_pieces-concat :
    (size : ℕ) (buf : Bytes) (ss : List Bytes)
    → length buf ≤ size
    → write_pieces size buf ss
      ≡ (if ltb size (length (buf ++ concat ss)) then none else some (buf ++ concat ss))
unfolding write_pieces
write_pieces-concat size buf [] l = rw (append-nil buf, fits) refl
  where
    fits : ltb size (length buf) ≡ false
    fits = ground arith
write_pieces-concat size buf (s ∷ ss) l = elim (Bool-cases (ltb size (length buf + length s))) [
  | inl over ↦ rw (write_pieces, over, too_long over) refl
  | inr fits ↦
      rw (write_pieces, fits)
        (write_pieces-concat size (buf ++ s) ss (ground (arith, length-append buf s))
          ∙ ap (λ t. if ltb size (length t) then none else some t) (append_assoc buf s (concat ss)))
]
  where
    too_long :
        ltb size (length buf + length s) ≡ true → ltb size (length (buf ++ (s ++ concat ss))) ≡ true
    too_long over = ground (arith, length-append buf (s ++ concat ss), length-append s (concat ss))

-- The JSON text of a sample.
abbrev pub payload : Sample → ℕ → Bytes
payload sample version = concat (
    codes "{\"temp\": "
    ∷ signed sample.temperature
    ∷ codes ", \"humidity\": "
    ∷ decimal sample.relative_humidity
    ∷ codes ", \"version\": "
    ∷ decimal version
    ∷ codes "}"
    ∷ [])

-- The temperature of an `i8`, a humidity of a `u8`.
pub record IsWire (s : Sample) : Type 0 where
  pub temperature_least : negsuc 127 ≤ℤ s.temperature
  pub temperature_most : s.temperature ≤ℤ pos 127
  pub humidity_most : s.relative_humidity < 256

signed-length : (s : Sample) → IsWire s → length (signed s.temperature) ≤ 4
signed-length s wire = by_sign s.temperature wire.temperature_least wire.temperature_most
  where
    by_sign : (t : ℤ) → negsuc 127 ≤ℤ t → t ≤ℤ pos 127 → length (signed t) ≤ 4
    by_sign (pos n) least most = omega (arith, length-decimal-le 2 n (omega (arith, most)))
    by_sign (negsuc n) least most =
        omega (arith, length-decimal-le 2 (suc n) (omega (arith, least)))

payload-length :
    (a b c : Bytes)
    → length (
        concat (
          codes "{\"temp\": "
          ∷ a
          ∷ codes ", \"humidity\": "
          ∷ b
          ∷ codes ", \"version\": "
          ∷ c
          ∷ codes "}"
          ∷ []))
      ≡ 37 + length a + length b + length c
payload-length a b c = omega (
  arith,
  length-append a
      (codes ", \"humidity\": " ++ (b ++ (codes ", \"version\": " ++ (c ++ (codes "}" ++ []))))),
  length-append b (codes ", \"version\": " ++ (c ++ (codes "}" ++ []))),
  length-append c (codes "}" ++ []),
)

-- The JSON text of a sample has 54 bytes at most, for every temperature of an i8, humidity of a u8
-- and version of a u32. A buffer that has room for the text gets exactly the text, and a smaller
-- one is refused.
pub encode_sample-payload :
    (s : Sample) (version : ℕ)
    → IsWire s
    → version < 2 ^ 32
    → (length (payload s version) ≤ 54)
      × ((size : ℕ)
          → encode_sample s version size
            ≡ (if ltb size (length (payload s version)) then none else some (payload s version)))
unfolding encode_sample
encode_sample-payload s version wire v = (
  omega (
    arith,
    payload-length (signed s.temperature) (decimal s.relative_humidity) (decimal version),
    signed-length s wire,
    length-decimal-le 2 s.relative_humidity (omega (arith, wire.humidity_most)),
    length-decimal-le 9 version (omega arith),
  ),
  λ size.
      write_pieces-concat size []
        (codes "{\"temp\": "
          ∷ signed s.temperature
          ∷ codes ", \"humidity\": "
          ∷ decimal s.relative_humidity
          ∷ codes ", \"version\": "
          ∷ decimal version
          ∷ codes "}"
          ∷ [])
        (omega arith),
)
