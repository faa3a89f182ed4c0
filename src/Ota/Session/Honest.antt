-- ===== src/Ota/Session/Honest.antt =====
-- What an update comes to when the body and the flash do their work: core/src/ota/session.rs.
use garagelight.Prelude.{
  ℕ, zero, suc, ◌+◌, ◌-◌, ◌*◌, ◌≤◌, ◌<◌, ◌≡◌, ◌⊎◌, inl, inr, refl, ◌∙◌, sym, ap, min, Bool, true,
  false, [], ◌∷◌, ◌++◌, some, arith, ltb, ◌==◌, if◌then◌else◌, Bytes, length, take, drop, bytes_eq,
  ap_at, Bool-cases, ltb→lt, length-drop,
}
use garagelight.Result.{Result, ok, err}
use garagelight.Ota.Session.{
  Device, Sha256, UpdateError, too_short, hash_mismatch, again, written, received, stream, commit,
  apply_update,
}
use garagelight.Ota.Session.Safe.{IsStreaming}

-- A body that still has the bytes `left`, read in pieces of any size, and a flash that never
-- fails.
pub record IsHonest {World FlashError ReadError : Type 0}
    (device : Device World FlashError ReadError) : Type 0 where
  pub left : World → Bytes
  pub served :
      (len : ℕ) (w : World)
      → 1 ≤ len
      → 1 ≤ length (left w)
      → (n : ℕ) × (buf : Bytes) × (w' : World) × (device.read len w ≡ (ok (n, buf), w'))
        × (1 ≤ n)
        × (n ≤ len)
        × (n ≤ length (left w))
        × (take n buf ≡ take n (left w))
        × (left w' ≡ drop n (left w))
  pub ended :
      (len : ℕ) (w : World)
      → left w ≡ []
      → (buf : Bytes) × (w' : World) × (device.read len w ≡ (ok (0, buf), w'))
  pub wrote :
      (offset : ℕ) (piece : Bytes) (w : World)
      → (w' : World) × (device.write offset piece w ≡ (ok tt, w')) × (left w' ≡ left w)
  pub committed : (w : World) → (w' : World) × (device.mark_updated w ≡ (ok tt, w'))

take-split : (n k : ℕ) (l : Bytes) → n ≤ k → take n l ++ take (k - n) (drop n l) ≡ take k l
take-split zero k l h = ap_at (λ i. take i l) (k - 0) k (omega arith)
take-split (suc n) zero l h = absurd (omega arith)
take-split (suc n) (suc k) [] h = take_nil (suc k - suc n)
  where
    take_nil : (i : ℕ) → take {A = ℕ} i [] ≡ []
    take_nil zero = refl
    take_nil (suc i) = refl
take-split (suc n) (suc k) (x ∷ l) h = ap (◌∷◌ x) (
    ap_at (λ i. take n l ++ take i (drop n l)) (suc k - suc n) (k - n) (omega arith)
    ∙ take-split n k l (omega arith))

take_of_nil : (i : ℕ) (l : Bytes) → l ≡ [] → take i l ≡ []
take_of_nil zero l e = refl
take_of_nil (suc i) [] e = refl
take_of_nil (suc i) (x ∷ l) e = cc

nil_or_more : (l : Bytes) → (l ≡ []) ⊎ (1 ≤ length l)
nil_or_more [] = inl refl
nil_or_more (x ∷ l) = inr (omega arith)

module _ {World FlashError ReadError Hasher : Type 0} (device : Device World FlashError ReadError)
    (sha : Sha256 Hasher) (streaming : IsStreaming sha) (honest : IsHonest device) where
  abbrev Streamed : ℕ → ℕ → Hasher → ℕ → ℕ → World → Type 0
  Streamed fuel content_length h offset total w =
      (h' : Hasher) × (total' : ℕ) × (w' : World) × (stream device sha fuel content_length h offset
          total w
        ≡ some (ok (h', total'), w'))
      × (h' ≡ sha.update h (take (content_length - total) (honest.left w)))
      × (total' ≡ total + min (content_length - total) (length (honest.left w)))

  received_again :
      (remaining n : ℕ) (h : Hasher) (offset : ℕ) (buf : Bytes) (w w' : World)
      → 1 ≤ n
      → n ≤ remaining
      → device.write offset (take n buf) w ≡ (ok tt, w')
      → received device sha remaining h offset (ok (n, buf), w)
        ≡ again n (sha.update h (take n buf)) w'
  unfolding received written
  received_again remaining n h offset buf w w' pos fits e = ground arith

  stream_turn :
      (fuel content_length : ℕ) (h : Hasher) (offset total n : ℕ) (buf : Bytes) (w w₁ w₂ : World)
      → ltb total content_length ≡ true
      → device.read (min (content_length - total) 4096) w ≡ (ok (n, buf), w₁)
      → device.write offset (take n buf) w₁ ≡ (ok tt, w₂)
      → 1 ≤ n
      → n ≤ min (content_length - total) 4096
      → n ≤ length (honest.left w)
      → take n buf ≡ take n (honest.left w)
      → honest.left w₁ ≡ drop n (honest.left w)
      → honest.left w₂ ≡ honest.left w₁
      → Streamed fuel content_length (sha.update h (take n buf)) (offset + n) (total + n) w₂
      → Streamed (suc fuel) content_length h offset total w
  unfolding stream
  stream_turn fuel content_length h offset total n buf w w₁ w₂ e q q₂ pos fits has same rest kept
        (h', total', w', run, hashed, counted) =
      (
        h',
        total',
        w',
        rw (stream, e, q, received_again _ n h offset buf w₁ w₂ pos fits q₂) run,
        hashed
            ∙ streaming.update_append h (take n buf)
                (take (content_length - (total + n)) (honest.left w₂))
            ∙ ap (sha.update h) pieces,
        omega (arith, counted, ap length kept, ap length rest, length-drop n (honest.left w)),
      )
    where
      less : content_length - (total + n) ≡ content_length - total - n
      less = omega arith

      pieces :
          take n buf ++ take (content_length - (total + n)) (honest.left w₂)
          ≡ take (content_length - total) (honest.left w)
      pieces =
          rw (same, kept, rest, less)
            (take-split n (content_length - total) (honest.left w) (omega arith))

  stream_honest :
      (fuel content_length : ℕ) (h : Hasher) (offset total : ℕ) (w : World)
      → total ≤ content_length
      → content_length < fuel + total
      → Streamed fuel content_length h offset total w
  unfolding stream
  stream_honest zero content_length h offset total w le lt = absurd (omega arith)
  stream_honest (suc fuel) content_length h offset total w le lt =
      elim (Bool-cases (ltb total content_length)) [
        | inr e ↦ (h, total, w, rw (stream, e) refl, full e, ground arith)
        | inl e ↦ elim (nil_or_more (honest.left w)) [
          | inl nothing ↦
              let (buf, w', q) = honest.ended (min (content_length - total) 4096) w nothing in
              (
                h,
                total,
                w',
                rw (stream, e, q) refl,
                sym (ap (sha.update h) (take_of_nil _ _ nothing) ∙ streaming.update_nil h),
                omega (arith, ap length nothing),
              )
          | inr more ↦
              let lt' = ltb→lt total content_length e in
              let (n, buf, w₁, q, pos, fits, has, same, rest) =
                honest.served (min (content_length - total) 4096) w (omega arith) more in
              let (w₂, q₂, kept) = honest.wrote offset (take n buf) w₁ in
              stream_turn fuel content_length h offset total n buf w w₁ w₂ e q q₂ pos fits has same
                rest kept
                (stream_honest fuel content_length (sha.update h (take n buf)) (offset + n)
                  (total + n) w₂ (omega arith) (omega arith))
        ]
      ]
    where
      full :
          ltb total content_length ≡ false
          → h ≡ sha.update h (take (content_length - total) (honest.left w))
      full e =
          sym (streaming.update_nil h) ∙ ap (λ k. sha.update h (take k (honest.left w))) zero_left
        where
          zero_left : 0 ≡ content_length - total
          zero_left = ground arith

  -- What an update of a body comes to.
  abbrev pub update_verdict : ℕ → Bytes → Bytes → Result (UpdateError FlashError ReadError) Unit
  update_verdict content_length expected body =
      if ltb (length body) content_length
      then err too_short
      else if bytes_eq (sha.finalize (sha.update sha.new (take content_length body))) expected
      then ok tt
      else err hash_mismatch

  -- Over a body that delivers its bytes, in pieces of any size, and a flash that does not fail, an
  -- update of a length that fits ends within one turn more than there are bytes: TooShort if the
  -- body has fewer bytes, else Ok or HashMismatch by whether the SHA-256 of the first
  -- `content_length` bytes of the body is the expected one.
  pub apply_update-left :
      (content_length : ℕ) (expected : Bytes) (w : World)
      → content_length ≤ 780 * 1024
      → (w' : World) × (apply_update device sha (content_length + 1) content_length expected w
          ≡ some (update_verdict content_length expected (honest.left w), w'))
  unfolding apply_update commit
  apply_update-left content_length expected w small =
      let (h', total', w', run, hashed, counted) =
        stream_honest (content_length + 1) content_length sha.new 0 0 w (omega arith)
          (omega arith) in
      let (w'', marked) = honest.committed w' in
      elim (Bool-cases (ltb (length (honest.left w)) content_length)) [
        | inl short ↦ (w', rw (within, run, short, unequal total' counted short) refl)
        | inr enough ↦ elim (Bool-cases (bytes_eq (sha.finalize h') expected)) [
          | inl d ↦ (
            w'',
            rw (within, run, enough, equal total' counted enough, d, marked, digest h' hashed d)
                refl,
          )
          | inr d ↦ (
            w',
            rw (within, run, enough, equal total' counted enough, d, digest h' hashed d) refl,
          )
        ]
      ]
    where
      within : ltb (780 * 1024) content_length ≡ false
      within = ground arith

      unequal :
          (total : ℕ)
          → total ≡ 0 + min (content_length - 0) (length (honest.left w))
          → ltb (length (honest.left w)) content_length ≡ true
          → (total == content_length) ≡ false
      unequal total c s = ground arith

      equal :
          (total : ℕ)
          → total ≡ 0 + min (content_length - 0) (length (honest.left w))
          → ltb (length (honest.left w)) content_length ≡ false
          → (total == content_length) ≡ true
      equal total c s = ground arith

      digest :
          (h : Hasher) {b : Bool}
          → h ≡ sha.update sha.new (take (content_length - 0) (honest.left w))
          → bytes_eq (sha.finalize h) expected ≡ b
          → bytes_eq
              (sha.finalize (sha.update sha.new (take content_length (honest.left w))))
              expected
            ≡ b
      digest h e d =
          ap (λ i. bytes_eq (sha.finalize (sha.update sha.new (take i (honest.left w)))) expected)
            whole
          ∙ sym (ap (λ k. bytes_eq (sha.finalize k) expected) e)
          ∙ d
        where
          whole : content_length ≡ content_length - 0
          whole = omega arith
