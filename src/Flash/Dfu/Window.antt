-- ===== src/Flash/Dfu/Window.antt =====
-- The calls of `DfuFlash` in a row, and the longest window that they leave: app/src/update.rs.
use garagelight.Prelude.{
  some_inj, All, ℕ, zero, suc, ◌+◌, ◌%◌, ◌^◌, ◌<◌, ◌≤◌, All, ◌≡◌, ◌∙◌, inl, inr, refl, sym, ap,
  Bool, true, false, List, [], ◌∷◌, Option, none, some, arith, ltb, ltb→lt, Bytes, Bool-cases,
}
use Prim.Native.Nat.{max}
use garagelight.Flash.Dfu.{
  IsErased, erase_lem, Event, fed, erased, written, Chip, DfuFlash, record_window, operate, erase,
  page_end, page_end_lem,
}

-- `read` of a slice of `len` bytes.
unfoldable pub read : Chip → ℕ → ℕ → DfuFlash → Bool × DfuFlash
read chip offset len f = operate chip (Event.read offset len) f

unfoldable pub write : Chip → ℕ → Bytes → DfuFlash → Bool × DfuFlash
write chip offset bytes f = operate chip (written offset bytes) f

unfoldable pub reset_max_window : DfuFlash → DfuFlash
reset_max_window f = record f { max_window_us = 0 }

pub data Call : Type 0 where
  reads : ℕ → ℕ → Call
  writes : ℕ → Bytes → Call
  erases : ℕ → ℕ → Call

-- The state after a call; an erase has a turn of its loop for each address and one more.
unfoldable pub call : Chip → Call → DfuFlash → Option DfuFlash
unfolding read write
call chip (reads offset len) f = some (read chip offset len f).1
call chip (writes offset bytes) f = some (write chip offset bytes f).1
call chip (erases from to) f = elim (erase chip (to + 1) from to f) [
  | none ↦ none
  | some (done, f') ↦ some f'
]

unfoldable pub calls : Chip → List Call → DfuFlash → Option DfuFlash
calls chip [] f = some f
calls chip (c ∷ later) f = elim (call chip c f) [ none ↦ none | some f' ↦ calls chip later f' ]

module _ (chip : Chip) where
  -- Every operation stands right after a feed of the watchdog.
  pub data Guarded : List Event → Type 0 where
    nothing : Guarded []
    guarded : {log : List Event} (e : Event) → Guarded log → Guarded (e ∷ fed ∷ log)

  -- The longest operation of a log, as a u32 of microseconds.
  abbrev pub longest : List Event → ℕ
  longest [] = 0
  longest (fed ∷ older) = longest older
  longest (erased a b ∷ older) = max (chip.elapsed_us (erased a b) % 2 ^ 32) (longest older)
  longest (written a b ∷ older) = max (chip.elapsed_us (written a b) % 2 ^ 32) (longest older)
  longest (Event.read a n ∷ older) = max (chip.elapsed_us (Event.read a n) % 2 ^ 32) (longest older)

  pub record IsWatched (f : DfuFlash) : Type 0 where
    pub fed_before : Guarded f.log
    pub window : f.max_window_us ≡ longest f.log

  record_window-max :
      (us : ℕ) (f : DfuFlash)
      → (record_window us f).max_window_us ≡ max (us % 2 ^ 32) f.max_window_us
  record_window-max us f = ground arith

  -- An operation that is not a feed keeps the window.
  operate-IsWatched :
      (e : Event) (f : DfuFlash)
      → longest (e ∷ fed ∷ f.log) ≡ max (chip.elapsed_us e % 2 ^ 32) (longest f.log)
      → IsWatched f
      → IsWatched (operate chip e f).1
  operate-IsWatched e f operation w = record {
    fed_before = guarded e w.fed_before;
    window =
        record_window-max (chip.elapsed_us e) f
        ∙ ap (max (chip.elapsed_us e % 2 ^ 32)) w.window
        ∙ sym operation;
  }

  erase-IsWatched :
      (fuel a to : ℕ) (f : DfuFlash)
      → IsWatched f
      → to + 4096 ≤ 2 ^ 32
      → 0 < fuel
      → to < fuel + a
      → (done : Bool) × (f' : DfuFlash) × (erase chip fuel a to f ≡ some (done, f')) × IsWatched f'
  unfolding erase
  erase-IsWatched zero a to f w fits some_fuel lt = absurd (omega arith)
  erase-IsWatched (suc fuel) a to f w fits some_fuel lt = elim (Bool-cases (ltb a to)) [
    | inr full ↦ (true, f, rw (erase, full) refl, w)
    | inl room ↦
        let less = ltb→lt a to room in
        let (q, moved, short) = page_end_lem a to fits less in
        let w' = operate-IsWatched (erased a (page_end a to)) f refl w in
        elim (Bool-cases (chip.succeeds (erased a (page_end a to)))) [
          | inr failed ↦ (
            false,
            (operate chip (erased a (page_end a to)) f).1,
            rw (erase, room, failed) refl,
            w',
          )
          | inl fine ↦
              let (done, f', run, good) =
                erase-IsWatched fuel (page_end a to) to
                  (operate chip (erased a (page_end a to)) f).1 w' fits (omega arith)
                  (omega arith) in
              (done, f', rw (erase, room, fine) run, good)
        ]
  ]

  -- Its erases end 4096 bytes below 2^32, as those in the flash do.
  abbrev pub Fits : Call → Type 0
  Fits (erases from to) = to + 4096 ≤ 2 ^ 32
  Fits (reads offset len) = Unit
  Fits (writes offset bytes) = Unit

  -- What a call adds to the log: its operation behind a feed, and an erase its pages.
  abbrev pub Did : Call → List Event → List Event → Type 0
  Did (reads offset len) log log' = log' ≡ Event.read offset len ∷ fed ∷ log
  Did (writes offset bytes) log log' = log' ≡ written offset bytes ∷ fed ∷ log
  Did (erases from to) log log' =
      from ≤ to → (r : Bool × DfuFlash) × IsErased chip from to log r × (r.1.log ≡ log')

  abbrev pub DidAll : List Call → List Event → List Event → Type 0
  DidAll [] log log' = log' ≡ log
  DidAll (c ∷ later) log log' = (mid : List Event) × Did c log mid × DidAll later mid log'

  call-IsWatched :
      (c : Call) (f : DfuFlash)
      → Fits c
      → IsWatched f
      → (f' : DfuFlash) × (call chip c f ≡ some f') × IsWatched f' × Did c f.log f'.log
  unfolding call
  call-IsWatched (reads offset len) f fits w =
      unfold read in
      ((operate chip (Event.read offset len) f).1, refl, operate-IsWatched _ f refl w, refl)
  call-IsWatched (writes offset bytes) f fits w =
      unfold write in
      ((operate chip (written offset bytes) f).1, refl, operate-IsWatched _ f refl w, refl)
  call-IsWatched (erases from to) f fits w =
      let (done, f', run, good) =
        erase-IsWatched (to + 1) from to f w fits (omega arith) (omega arith) in
      (f', rw (call, run) refl, good, λ le. pages le f' run)
    where
      pages :
          from ≤ to
          → (f' : DfuFlash) → {done : Bool} → erase chip (to + 1) from to f ≡ some (done, f')
          → (r : Bool × DfuFlash) × IsErased chip from to f.log r × (r.1.log ≡ f'.log)
      pages le f' run =
          let (r, run', erased_to) = erase_lem chip from to f le fits in
          (r, erased_to, ap (λ (x : Bool × DfuFlash). x.1.log) (some_inj (sym run' ∙ run)))

  -- Any calls of the adapter whose erases end 4096 bytes below 2^32 come to an end. Behind them the log
  -- holds, one call after the other, the read or the write that was asked for, or the pages of an erase
  -- up to its end or to the first that fails. Every one stands right after a feed of the watchdog, and
  -- the window is the longest of these operations.
  pub calls-IsWatched :
      (cs : List Call) (f : DfuFlash)
      → All Fits cs
      → IsWatched f
      → (f' : DfuFlash) × (calls chip cs f ≡ some f') × IsWatched f' × DidAll cs f.log f'.log
  unfolding calls
  calls-IsWatched [] f fits w = (f, refl, w, refl)
  calls-IsWatched (c ∷ later) f fits w =
      let (f₁, run₁, w₁, did) = call-IsWatched c f fits.0 w in
      let (f₂, run₂, w₂, others) = calls-IsWatched later f₁ fits.1 w₁ in
      (f₂, rw (calls, run₁) run₂, w₂, (f₁.log, did, others))
