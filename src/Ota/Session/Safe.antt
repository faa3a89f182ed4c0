-- ===== src/Ota/Session/Safe.antt =====
-- An update never commits a wrong image: core/src/ota/session.rs.
use garagelight.Prelude.{
  ℕ, zero, suc, ◌+◌, ◌-◌, ◌*◌, ◌≤◌, ◌<◌, ◌≡◌, inl, inr, refl, ◌∙◌, sym, ap, min, Bool, true, false,
  [], ◌++◌, some, arith, ltb, ◌==◌, Bytes, length, take, bytes_eq, bytes_eq_iff, Bool-cases, ltb→lt,
  length-append, length-take, ==_iff,
}
use garagelight.Result.{Result, ok, err, map_err}
use garagelight.Ota.Session.{
  Device, Sha256, UpdateError, oversize, too_short, hash_mismatch, flash, Turn, leave, fail, again,
  written, received, stream, commit, apply_update, active_bytes,
}

-- What the flash holds: `image` is what was written so far, and `marked` says whether it was
-- committed. A failed write, or a failed commit, may leave anything but a mark that was not there.
pub record IsFlash {World FlashError ReadError : Type 0}
    (device : Device World FlashError ReadError) : Type 0 where
  pub image : World → Bytes
  pub marked : World → Bool
  pub read_image : (len : ℕ) (w : World) → image (device.read len w).1 ≡ image w
  pub read_marked : (len : ℕ) (w : World) → marked (device.read len w).1 ≡ marked w
  pub read_sized :
      (len n : ℕ) (buf : Bytes) (w : World) → (device.read len w).0 ≡ ok (n, buf) → length buf ≡ len
  pub write_image :
      (piece : Bytes) (w w' : World)
      → device.write (length (image w)) piece w ≡ (ok tt, w')
      → image w' ≡ image w ++ piece
  pub write_marked :
      (offset : ℕ) (piece : Bytes) (w : World) → marked (device.write offset piece w).1 ≡ marked w
  pub mark_image : (w : World) → image (device.mark_updated w).1 ≡ image w
  pub mark_marked : (w w' : World) → device.mark_updated w ≡ (ok tt, w') → marked w' ≡ true

-- A digest fed in pieces is the digest of the whole.
pub record IsStreaming {Hasher : Type 0} (sha : Sha256 Hasher) : Type 0 where
  pub update_nil : (h : Hasher) → sha.update h [] ≡ h
  pub update_append :
      (h : Hasher) (a b : Bytes) → sha.update (sha.update h a) b ≡ sha.update h (a ++ b)

module _ {World FlashError ReadError Hasher : Type 0} (device : Device World FlashError ReadError)
    (sha : Sha256 Hasher) (flash_ok : IsFlash device) (streaming : IsStreaming sha) where
  -- `total` bytes are in the flash and in the hasher, and nothing is committed.
  record Held (total : ℕ) (h : Hasher) (w : World) : Type 0 where
    size : length (flash_ok.image w) ≡ total
    hashed : h ≡ sha.update sha.new (flash_ok.image w)
    unmarked : flash_ok.marked w ≡ false

  abbrev HeldTurn : ℕ → ℕ → Hasher → Turn device sha → Type 0
  HeldTurn remaining total h (leave w) = Held total h w
  HeldTurn remaining total h (fail e w) = flash_ok.marked w ≡ false
  HeldTurn remaining total h (again n h' w) = (1 ≤ n) × (n ≤ remaining) × Held (total + n) h' w

  abbrev HeldEnd : Result (UpdateError FlashError ReadError) (Hasher × ℕ) × World → Type 0
  HeldEnd (err e, w) = flash_ok.marked w ≡ false
  HeldEnd (ok (h, total), w) = Held total h w

  written-Held :
      (remaining total n : ℕ) (h : Hasher) (piece : Bytes) (w : World)
      → Held total h w
      → 1 ≤ n
      → n ≤ remaining
      → length piece ≡ n
      → (r : Result FlashError Unit × World) → device.write total piece w ≡ r
      → HeldTurn remaining total h (written device sha n (sha.update h piece) r)
  unfolding written
  written-Held remaining total n h piece w held pos le size (err e, w') q =
      sym (ap (λ r. flash_ok.marked r.1) q) ∙ flash_ok.write_marked total piece w ∙ held.unmarked
  written-Held remaining total n h piece w held pos le size (ok tt, w') q = (
    pos,
    le,
    record {
      size = ap length grown ∙ length-append (flash_ok.image w) piece ∙ omega (arith, held.size);
      hashed =
          ap (λ k. sha.update k piece) held.hashed
          ∙ streaming.update_append sha.new (flash_ok.image w) piece
          ∙ ap (sha.update sha.new) (sym grown);
      unmarked =
          sym (ap (λ r. flash_ok.marked r.1) q)
          ∙ flash_ok.write_marked total piece w
          ∙ held.unmarked;
    },
  )
    where
      grown : flash_ok.image w' ≡ flash_ok.image w ++ piece
      grown = flash_ok.write_image piece w w' (rw held.size q)

  read-Held :
      (len total : ℕ) (h : Hasher) (w : World) → Held total h w → Held total h (device.read len w).1
  read-Held len total h w held = record {
    size = ap length (flash_ok.read_image len w) ∙ held.size;
    hashed = held.hashed ∙ ap (sha.update sha.new) (sym (flash_ok.read_image len w));
    unmarked = flash_ok.read_marked len w ∙ held.unmarked;
  }

  received-Held :
      (remaining total : ℕ) (h : Hasher) (r : Result ReadError (ℕ × Bytes) × World)
      → Held total h r.1
      → ((n : ℕ) (buf : Bytes) → r.0 ≡ ok (n, buf) → length buf ≡ remaining)
      → HeldTurn remaining total h (received device sha remaining h total r)
  unfolding received
  received-Held remaining total h (err e, w) held sized = held.unmarked
  received-Held remaining total h (ok (n, buf), w) held sized = elim (Bool-cases (n == 0)) [
    | inl z ↦ rw z held
    | inr nz ↦ elim (Bool-cases (ltb remaining n)) [
      | inl long ↦ rw (nz, long) held.unmarked
      | inr fits ↦
          rw (nz, fits)
            (written-Held remaining total n h (take n buf) w held (ground arith) (ground arith)
              (length-take n buf ∙ ground (arith, sized n buf refl)) _ refl)
    ]
  ]

  abbrev Streamed : ℕ → ℕ → Hasher → ℕ → World → Type 0
  Streamed fuel content_length h total w =
      (end : Result (UpdateError FlashError ReadError) (Hasher × ℕ) × World) × (stream device sha
          fuel content_length h total total w
        ≡ some end)
      × HeldEnd end

  stream-Held :
      (fuel content_length : ℕ) (h : Hasher) (total : ℕ) (w : World)
      → Held total h w
      → total ≤ content_length
      → content_length < fuel + total
      → Streamed fuel content_length h total w
  unfolding stream
  stream-Held zero content_length h total w held le lt = absurd (omega arith)
  stream-Held (suc fuel) content_length h total w held le lt =
      elim (Bool-cases (ltb total content_length)) [
        | inr e ↦ ((ok (h, total), w), rw (stream, e) refl, held)
        | inl e ↦
            let lt' = ltb→lt total content_length e in
            turned e _ refl
              (received-Held remaining total h _ (read-Held remaining total h w held)
                (λ n buf q. flash_ok.read_sized remaining n buf w q))
              (λ n h' w' pos fits held'.
                stream-Held fuel content_length h' (total + n) w' held' (omega arith) (omega arith))
      ]
    where
      remaining : ℕ
      remaining = min (content_length - total) 4096

      turned :
          ltb total content_length ≡ true
          → (t : Turn device sha)
          → received device sha remaining h total (device.read remaining w) ≡ t
          → HeldTurn remaining total h t
          → ((n : ℕ) (h' : Hasher) (w' : World)
              → 1 ≤ n
              → n ≤ remaining
              → Held (total + n) h' w'
              → Streamed fuel content_length h' (total + n) w')
          → Streamed (suc fuel) content_length h total w
      turned e (leave w') q good next = ((ok (h, total), w'), rw (stream, e, q) refl, good)
      turned e (fail x w') q good next = ((err x, w'), rw (stream, e, q) refl, good)
      turned e (again n h' w') q (pos, fits, good) next =
          let (end, run, held') = next n h' w' pos fits good in (end, rw (stream, e, q) run, held')

  -- What the end of an update may claim of the world it leaves.
  abbrev pub IsVerified :
      ℕ → Bytes → Result (UpdateError FlashError ReadError) Unit → World → Type 0
  IsVerified content_length expected r w =
      (r ≡ ok tt → flash_ok.marked w ≡ true)
      × (flash_ok.marked w ≡ true
          → (content_length ≤ 780 * 1024)
            × (length (flash_ok.image w) ≡ content_length)
            × (sha.finalize (sha.update sha.new (flash_ok.image w)) ≡ expected))

  commit_held :
      (content_length : ℕ) (expected : Bytes)
      (end : Result (UpdateError FlashError ReadError) (Hasher × ℕ) × World)
      → content_length ≤ 780 * 1024
      → HeldEnd end
      → (r : Result (UpdateError FlashError ReadError) Unit) × (w : World) × (commit device sha
            content_length expected end
          ≡ (r, w))
        × IsVerified content_length expected r w
  unfolding commit
  commit_held content_length expected (err e, w) small unmarked =
      (err e, w, refl, ((λ q. cc), λ m. cc))
  commit_held content_length expected (ok (h, total), w) small held =
      elim (Bool-cases (total == content_length)) [
        | inr e ↦ (err too_short, w, rw e refl, ((λ q. cc), λ m. absurd (unmarked m)))
        | inl e ↦ elim (Bool-cases (bytes_eq (sha.finalize h) expected)) [
          | inr d ↦ (err hash_mismatch, w, rw (e, d) refl, ((λ q. cc), λ m. absurd (unmarked m)))
          | inl d ↦ (
            _,
            _,
            rw (e, d) refl,
            (
              set _ refl,
              λ m. (
                small,
                ap length (flash_ok.mark_image w) ∙ held.size ∙ (==_iff total content_length).0 e,
                ap (λ i. sha.finalize (sha.update sha.new i)) (flash_ok.mark_image w)
                    ∙ ap sha.finalize (sym held.hashed)
                    ∙ (bytes_eq_iff (sha.finalize h) expected).0 d,
              ),
            ),
          )
        ]
      ]
    where
      unmarked : ¬ (flash_ok.marked w ≡ true)
      unmarked m = let u = held.unmarked in cc

      set :
          (r : Result FlashError Unit × World)
          → device.mark_updated w ≡ r
          → map_err {F = UpdateError FlashError ReadError} flash r.0 ≡ ok tt
          → flash_ok.marked r.1 ≡ true
      set (ok _, w') q e = flash_ok.mark_marked w w' q
      set (err x, w') q e = cc

  -- On a flash that holds nothing and is not committed, `apply_update` ends within 780 * 1024 + 1
  -- turns. If it returns Ok the image is committed. If the image is committed,
  -- whatever is returned, then the length announced fits the active partition, as many bytes were
  -- written one behind the other, and their SHA-256 is the expected one. A longer image is refused
  -- before anything is read or written.
  pub apply_update_lem :
      (fuel content_length : ℕ) (expected : Bytes) (w : World)
      → 780 * 1024 < fuel
      → flash_ok.image w ≡ []
      → flash_ok.marked w ≡ false
      → (r : Result (UpdateError FlashError ReadError) Unit) × (w' : World) × (apply_update device
            sha fuel content_length expected w
          ≡ some (r, w'))
        × IsVerified content_length expected r w'
        × (780 * 1024 < content_length
            → (r ≡ err (oversize content_length (780 * 1024))) × (w' ≡ w))
  unfolding apply_update
  apply_update_lem fuel content_length expected w enough empty unmarked =
      elim (Bool-cases (ltb active_bytes content_length)) [
        | inl e ↦ (
          err (oversize content_length active_bytes),
          w,
          rw e refl,
          ((λ q. cc), λ m. absurd cc),
          λ _. (refl, refl),
        )
        | inr e ↦
            let (end, run, held) =
              stream-Held fuel content_length sha.new 0 w
                (record {
                  size = ap length empty;
                  hashed = sym (ap (sha.update sha.new) empty ∙ streaming.update_nil sha.new);
                  unmarked = unmarked;
                })
                (omega arith) (ground arith) in
            let (r, w', done, honest) =
              commit_held content_length expected end (ground arith) held in
            (r, w', rw (e, run, done) refl, honest, λ l. absurd (ground arith))
      ]
