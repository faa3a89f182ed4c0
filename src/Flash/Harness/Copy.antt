-- ===== src/Flash/Harness/Copy.antt =====
-- What the harness of app/src/bin/update_selftest.rs has written when it marks an update.
use garagelight.Prelude.{
  ℕ, zero, suc, ◌+◌, ◌-◌, ◌≤◌, ◌<◌, ◌≡◌, ◌≢◌, ◌∙◌, inl, inr, refl, sym, ap, subst, true, false, not,
  ◌&&◌, ◌||◌, List, [], ◌∷◌, ◌++◌, Option, none, some, arith, min, ltb, ltb→lt, ◌==◌, Bytes,
  Bool-cases, ◌⊎◌, ap_at,
}
use garagelight.Result.{Result, ok, err}
use garagelight.Flash.{spare}
use garagelight.Ota.SelfTest.Boot.{BootState, boot, swap, reverted, dfu_detach}
use garagelight.Flash.Harness.{
  Event, fed, prepared, written, marked, Bench, no_control, bad_length, bad_mode, no_state,
  not_prepared, not_marked, exercised, other_state, not_written, End, halted, reset, read_u32,
  read_image, copy, finish, copied, apply, main,
}

-- What a log has written, one piece behind the other.
abbrev pub image_of : List Event → Bytes
image_of [] = []
image_of (written offset b ∷ older) = image_of older ++ b
image_of (fed ∷ older) = image_of older
image_of (prepared ∷ older) = image_of older
image_of (marked ∷ older) = image_of older

module _ (bench : Bench) where
  -- A log since the flash was prepared, with the bytes written: pieces of one to 4096 bytes, each right
  -- behind the one before, and right after a feed of the watchdog.
  pub data Copied : ℕ → List Event → Type 0 where
    begun : Copied 0 (prepared ∷ fed ∷ [])
    piece :
        {a : ℕ} {log : List Event} (n : ℕ)
        → Copied a log
        → 1 ≤ n
        → n ≤ 4096
        → Copied (a + n) (written a (read_image bench n (12 + a)) ∷ fed ∷ log)

  read_image-append :
      (a b offset : ℕ)
      → read_image bench (a + b) offset
        ≡ read_image bench a offset ++ read_image bench b (offset + a)
  unfolding read_image
  read_image-append zero b offset =
      ap_at (λ n. read_image bench n offset) (0 + b) b (omega arith)
      ∙ ap_at (read_image bench b) offset (offset + 0) (omega arith)
  read_image-append (suc a) b offset =
      ap_at (λ n. read_image bench n offset) (suc a + b) (suc (a + b)) (omega arith)
      ∙ ap (λ l. bench.flash (spare.base + offset) ∷ l)
          (read_image-append a b (offset + 1)
            ∙ ap_at (λ n. read_image bench a (offset + 1) ++ read_image bench b n) (offset + 1 + a)
                (offset + suc a) (omega arith))

  Copied-image : {a : ℕ} {log : List Event} → Copied a log → image_of log ≡ read_image bench a 12
  Copied-image begun = unfold read_image in refl
  Copied-image (piece {a} {log} n c least most) =
      ap (λ l. l ++ read_image bench n (12 + a)) (Copied-image c) ∙ sym (read_image-append a n 12)

  -- How a run of the loop ends.
  abbrev IsCopied : ℕ → Option ℕ × List Event → Type 0
  IsCopied len (none, log) = Copied len log
  IsCopied len (some a, log) =
      (a < len)
      × ((b : Bytes) × (older : List Event) × Copied a older × (log ≡ written a b ∷ fed ∷ older))

  copy-IsCopied :
      (fuel a len : ℕ) (log : List Event)
      → Copied a log
      → a ≤ len
      → len < fuel + a
      → (r : Option ℕ × List Event) × (copy bench fuel a len log ≡ some r) × IsCopied len r
  unfolding copy
  copy-IsCopied zero a len log c le lt = absurd (omega arith)
  copy-IsCopied (suc fuel) a len log c le lt = elim (Bool-cases (ltb a len)) [
    | inr full ↦ ((none, log), rw (copy, full) refl, subst (λ n. Copied n log) (ground arith) c)
    | inl room ↦
        let less = ltb→lt a len room in
        elim (Bool-cases (bench.writes a (read_image bench (min (len - a) 4096) (12 + a)))) [
          | inr failed ↦ (
            (some a, written a (read_image bench (min (len - a) 4096) (12 + a)) ∷ fed ∷ log),
            rw (copy, room, failed) refl,
            (less, (read_image bench (min (len - a) 4096) (12 + a), log, c, refl)),
          )
          | inl fine ↦
              let (r, run, good) =
                copy-IsCopied fuel (a + min (len - a) 4096) len
                  (written a (read_image bench (min (len - a) 4096) (12 + a)) ∷ fed ∷ log)
                  (piece (min (len - a) 4096) c (omega arith) (omega arith)) (omega arith)
                  (omega arith) in
              (r, rw (copy, room, fine) run, good)
        ]
  ]

  -- How the harness may end. `Copied n log` says that the first `n` bytes of the image, and only those,
  -- were written before.
  abbrev pub IsEnd : ℕ → ℕ → End × List Event → Type 0
  IsEnd mode len (reset, log) =
      (mode ≡ 1)
      × (bench.state ≡ ok boot)
      × ((older : List Event) × Copied len older
          × (image_of older ≡ read_image bench len 12)
          × (log ≡ marked ∷ fed ∷ older))
  IsEnd mode len (halted exercised, log) =
      (mode ≡ 0)
      × (bench.state ≡ ok boot)
      × ((older : List Event) × Copied len older
          × (image_of older ≡ read_image bench len 12)
          × (log ≡ fed ∷ older))
  IsEnd mode len (halted not_marked, log) =
      (mode ≡ 1)
      × (bench.marks ≡ false)
      × ((older : List Event) × Copied len older × (log ≡ marked ∷ fed ∷ older))
  IsEnd mode len (halted (not_written a), log) =
      (a < len)
      × ((b : Bytes) × (older : List Event) × Copied a older × (log ≡ written a b ∷ fed ∷ older))
  IsEnd mode len (halted not_prepared, log) = log ≡ prepared ∷ fed ∷ []
  IsEnd mode len (halted no_state, log) = log ≡ fed ∷ []
  IsEnd mode len (halted (other_state s), log) = (s ≢ boot) × (log ≡ fed ∷ [])
  IsEnd mode len (halted no_control, log) = (read_u32 bench 0 ≢ 0x5433_4C47) × (log ≡ fed ∷ [])
  IsEnd mode len (halted bad_length, log) =
      ((len ≡ 0) ⊎ (spare.bytes < len + 12)) × (log ≡ fed ∷ [])
  IsEnd mode len (halted bad_mode, log) = (mode ≢ 0) × (mode ≢ 1) × (log ≡ fed ∷ [])

  finish-IsEnd :
      (mode len : ℕ) (log : List Event)
      → bench.state ≡ ok boot
      → (mode ≡ 0) ⊎ (mode ≡ 1)
      → Copied len log
      → IsEnd mode len (finish bench mode log)
  unfolding finish
  finish-IsEnd mode len log s (inl e) c = rw e (refl, s, (log, c, Copied-image c, refl))
  finish-IsEnd mode len log s (inr e) c = elim (Bool-cases bench.marks) [
    | inl m ↦
        let q : finish bench mode log ≡ (reset, marked ∷ fed ∷ log) = ground (arith, e, m) in
        subst (IsEnd mode len) (sym q) (e, s, (log, c, Copied-image c, refl))
    | inr m ↦
        let q : finish bench mode log ≡ (halted not_marked, marked ∷ fed ∷ log) =
          ground (arith, e, m) in
        subst (IsEnd mode len) (sym q) (e, m, (log, c, refl))
  ]

  abbrev Ended : ℕ → ℕ → Option (End × List Event) → Type 0
  Ended mode len o = (r : End × List Event) × (o ≡ some r) × IsEnd mode len r

  apply-Ended :
      (mode len : ℕ)
      → (mode ≡ 0) ⊎ (mode ≡ 1)
      → Ended mode len (apply bench (len + 1) mode len (fed ∷ []))
  unfolding apply
  apply-Ended mode len modes = by_state bench.state refl
    where
      wrote :
          (r : Option ℕ × List Event)
          → bench.state ≡ ok boot
          → IsCopied len r
          → Ended mode len (copied bench mode (some r))
      wrote (none, log) s c = (finish bench mode log, refl, finish-IsEnd mode len log s modes c)
      wrote (some a, log) s c = ((halted (not_written a), log), refl, c)

      by_state :
          (s : Result Unit BootState)
          → bench.state ≡ s
          → Ended mode len (apply bench (len + 1) mode len (fed ∷ []))
      by_state (err x) e = rw (apply, e) ((halted no_state, fed ∷ []), refl, refl)
      by_state (ok swap) e =
          rw (apply, e) ((halted (other_state swap), fed ∷ []), refl, ((λ q. cc q), refl))
      by_state (ok reverted) e =
          rw (apply, e) ((halted (other_state reverted), fed ∷ []), refl, ((λ q. cc q), refl))
      by_state (ok dfu_detach) e =
          rw (apply, e) ((halted (other_state dfu_detach), fed ∷ []), refl, ((λ q. cc q), refl))
      by_state (ok boot) e = elim (Bool-cases bench.prepares) [
        | inr p ↦
            let q : apply bench (len + 1) mode len (fed ∷ [])
                ≡ some (halted not_prepared, prepared ∷ fed ∷ []) =
              ground (arith, e, p) in
            ((halted not_prepared, prepared ∷ fed ∷ []), q, refl)
        | inl p ↦
            let (r, run, c) =
              copy-IsCopied (len + 1) 0 len (prepared ∷ fed ∷ []) begun (omega arith)
                (omega arith) in
            let q : apply bench (len + 1) mode len (fed ∷ [])
                ≡ copied bench mode (copy bench (len + 1) 0 len (prepared ∷ fed ∷ [])) =
              ground (arith, e, p) in
            let (r', run', good) = wrote r e c in (r', q ∙ ap (copied bench mode) run ∙ run', good)
      ]

  -- The harness ends within one turn of its loop for each byte of the image and one more. It resets,
  -- with the update marked, only in mode 1 and in the state Boot, and then exactly the image of the
  -- control block was written before the mark, from its first byte on, in pieces of up to 4096 bytes
  -- that each follow a feed of the watchdog. In mode 0 it writes the same and marks nothing. A control
  -- block with a wrong magic, a length of zero or beyond the spare region, or another mode stops it
  -- before it touches the flash, as every other state does, and a write that fails stops it there.
  pub main_lem :
      (r : End × List Event) × (main bench (read_u32 bench 8 + 1) ≡ some r)
      × IsEnd (read_u32 bench 4) (read_u32 bench 8) r
  unfolding main
  main_lem = elim (Bool-cases (read_u32 bench 0 == 0x5433_4C47)) [
    | inr magic ↦
        let q : main bench (read_u32 bench 8 + 1) ≡ some (halted no_control, fed ∷ []) =
          ground (arith, magic) in
        ((halted no_control, fed ∷ []), q, (ground (arith, magic), refl))
    | inl magic ↦ elim (Bool-cases (len == 0 || ltb (spare.bytes - 12) len)) [
      | inl long ↦
          let q : main bench (len + 1) ≡ some (halted bad_length, fed ∷ []) =
            ground (arith, magic, long) in
          ((halted bad_length, fed ∷ []), q, (bad len long, refl))
      | inr fits ↦ elim (Bool-cases (not (mode == 0) && not (mode == 1))) [
        | inl other ↦
            let q : main bench (len + 1) ≡ some (halted bad_mode, fed ∷ []) =
              ground (arith, magic, fits, other) in
            ((halted bad_mode, fed ∷ []), q, (not_exercise mode other, not_swap mode other, refl))
        | inr known ↦
            let q : main bench (len + 1) ≡ apply bench (len + 1) mode len (fed ∷ []) =
              ground (arith, magic, fits, known) in
            let (r, run, good) = apply-Ended mode len (one_of mode known) in (r, q ∙ run, good)
      ]
    ]
  ]
    where
      mode : ℕ
      mode = read_u32 bench 4

      len : ℕ
      len = read_u32 bench 8

      bad : (n : ℕ) → n == 0 || ltb (spare.bytes - 12) n ≡ true → (n ≡ 0) ⊎ (spare.bytes < n + 12)
      bad n h = ground arith

      not_exercise : (m : ℕ) → not (m == 0) && not (m == 1) ≡ true → m ≢ 0
      not_exercise m h = ground arith

      not_swap : (m : ℕ) → not (m == 0) && not (m == 1) ≡ true → m ≢ 1
      not_swap m h = ground arith

      one_of : (m : ℕ) → not (m == 0) && not (m == 1) ≡ false → (m ≡ 0) ⊎ (m ≡ 1)
      one_of m h = ground arith
