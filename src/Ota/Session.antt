-- ===== src/Ota/Session.antt =====
-- The streaming of an image into the flash: core/src/ota/session.rs, with the sizes of
-- core/src/layout.rs and core/src/ota/mod.rs. The flasher, the body and SHA-256 are outside this
-- code: `World` is the state behind the first two, and records hold the calls.
pub mod Safe
pub mod Honest
use garagelight.Prelude.{
  ℕ, zero, suc, ◌+◌, ◌-◌, ◌*◌, min, Bool, true, false, not, Option, none, some, ltb, ◌==◌,
  if◌then◌else◌, Bytes, take, bytes_eq, ◌>>=◌,
}
use garagelight.Result.{Result, ok, err, map_err}

abbrev pub active_bytes : ℕ
active_bytes = 780 * 1024

abbrev pub chunk_bytes : ℕ
chunk_bytes = 4096

-- The traits `BodyReader` and `Flasher`. `read len` is given a slice of `len` bytes, and returns
-- the count and the slice as it then is.
pub record Device (World FlashError ReadError : Type 0) : Type 0 where
  pub read : ℕ → World → Result ReadError (ℕ × Bytes) × World
  pub write : ℕ → Bytes → World → Result FlashError Unit × World
  pub mark_updated : World → Result FlashError Unit × World

pub record Sha256 (Hasher : Type 0) : Type 0 where
  pub new : Hasher
  pub update : Hasher → Bytes → Hasher
  pub finalize : Hasher → Bytes

pub data UpdateError (FlashError ReadError : Type 0) : Type 0 where
  oversize : ℕ → ℕ → UpdateError FlashError ReadError
  too_short too_long hash_mismatch : UpdateError FlashError ReadError
  flash : FlashError → UpdateError FlashError ReadError
  read : ReadError → UpdateError FlashError ReadError

module _ {World FlashError ReadError Hasher : Type 0} (device : Device World FlashError ReadError)
    (sha : Sha256 Hasher) where
  -- How one turn of the loop ends: a `break`, a return of an error, or `n` bytes more.
  pub data Turn : Type 0 where
    leave : World → Turn
    fail : UpdateError FlashError ReadError → World → Turn
    again : ℕ → Hasher → World → Turn

  unfoldable pub written : ℕ → Hasher → Result FlashError Unit × World → Turn
  written n h (err e, w) = fail (flash e) w
  written n h (ok _, w) = again n h w

  unfoldable pub received : ℕ → Hasher → ℕ → Result ReadError (ℕ × Bytes) × World → Turn
  unfolding written
  received remaining h offset (err e, w) = fail (read e) w
  received remaining h offset (ok (n, buf), w) =
      if n == 0
      then leave w
      else if ltb remaining n
      then fail too_long w
      else written n (sha.update h (take n buf)) (device.write offset (take n buf) w)

  -- The loop, on fuel; `none` means that the fuel ran out. A loop that ends on its own gives the
  -- hasher and the total.
  unfoldable pub stream :
      ℕ
      → ℕ
      → Hasher
      → ℕ
      → ℕ
      → World
      → Option (Result (UpdateError FlashError ReadError) (Hasher × ℕ) × World)
  unfolding received
  stream zero content_length h offset total w = none
  stream (suc fuel) content_length h offset total w = elim (ltb total content_length) [
    | false ↦ some (ok (h, total), w)
    | true ↦
        let remaining = min (content_length - total) chunk_bytes in
        elim (received remaining h offset (device.read remaining w)) [
          | leave w' ↦ some (ok (h, total), w')
          | fail e w' ↦ some (err e, w')
          | again n h' w' ↦ stream fuel content_length h' (offset + n) (total + n) w'
        ]
  ]

  -- What follows the loop.
  unfoldable pub commit :
      ℕ
      → Bytes
      → Result (UpdateError FlashError ReadError) (Hasher × ℕ) × World
      → Result (UpdateError FlashError ReadError) Unit × World
  commit content_length expected (err e, w) = (err e, w)
  commit content_length expected (ok (h, total), w) =
      if not (total == content_length)
      then (err too_short, w)
      else if not (bytes_eq (sha.finalize h) expected)
      then (err hash_mismatch, w)
      else (let (r, w') = device.mark_updated w in (map_err flash r, w'))

  unfoldable pub apply_update :
      ℕ → ℕ → Bytes → World → Option (Result (UpdateError FlashError ReadError) Unit × World)
  unfolding stream commit
  apply_update fuel content_length expected w =
      if ltb active_bytes content_length
      then some (err (oversize content_length active_bytes), w)
      else (do
        end ← stream fuel content_length sha.new 0 0 w
        some (commit content_length expected end))
