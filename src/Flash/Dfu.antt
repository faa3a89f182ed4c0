-- ===== src/Flash/Dfu.antt =====
-- `DfuFlash` of app/src/update.rs: every operation feeds the watchdog before it, and an erase goes
-- page by page. The driver is outside the sources: `Chip` is what it answers and how long it takes.
-- The log holds the operations and the feeds of the watchdog, the newest first. An address is a u32,
-- and the address of the next page wraps as it does in the release profile.
pub mod Window
use garagelight.Prelude.{
  sym, ap, ℕ, zero, suc, ◌+◌, ◌%◌, ◌^◌, ◌≤◌, ◌<◌, ◌≡◌, inl, inr, refl, subst, Bool, true, false,
  List, ◌∷◌, Option, none, some, min, arith, ltb, ltb→lt, if◌then◌else◌, Bytes, Bool-cases,
}

abbrev pub erase_size : ℕ
erase_size = 4096

pub data Event : Type 0 where
  fed : Event
  erased : ℕ → ℕ → Event
  written : ℕ → Bytes → Event
  read : ℕ → ℕ → Event

-- Whether an operation succeeds, and the microseconds that it takes.
pub record Chip : Type 0 where
  pub succeeds : Event → Bool
  pub elapsed_us : Event → ℕ

pub record DfuFlash : Type 0 where
  pub log : List Event
  pub max_window_us : ℕ

-- `record_window`: `fetch_max` of the time, as a u32.
abbrev pub record_window : ℕ → DfuFlash → DfuFlash
record_window us f =
    let window = us % 2 ^ 32 in
    record f { max_window_us = if ltb f.max_window_us window then window else f.max_window_us }

-- `min(addr + page, to)`
unfoldable pub page_end : ℕ → ℕ → ℕ
page_end addr to = min ((addr + erase_size) % 2 ^ 32) to

pub page_end_lem :
    (addr to : ℕ)
    → to + 4096 ≤ 2 ^ 32
    → addr < to
    → (page_end addr to ≡ min (addr + 4096) to)
      × (addr < page_end addr to)
      × (page_end addr to ≤ to)
unfolding page_end
page_end_lem addr to fits lt = (omega arith, omega arith, omega arith)

module _ (chip : Chip) where
  -- One operation, with the feed before it and the window recorded.
  abbrev pub operate : Event → DfuFlash → Bool × DfuFlash
  operate e f =
      (chip.succeeds e, record_window (chip.elapsed_us e) (record f { log = e ∷ fed ∷ f.log }))

  -- The loop of `erase`, on fuel; the Boolean is whether it returned Ok.
  unfoldable pub erase : ℕ → ℕ → ℕ → DfuFlash → Option (Bool × DfuFlash)
  erase zero addr to f = none
  erase (suc fuel) addr to f = elim (ltb addr to) [
    | false ↦ some (true, f)
    | true ↦
        let end = page_end addr to in
        let (done, f') = operate (erased addr end) f in
        elim done [ false ↦ some (false, f') | true ↦ erase fuel end to f' ]
  ]

  -- From `log` on, the flash was erased from `from` up to an address, by operations of 4096 bytes
  -- each, but for one that ends at `to`, and every operation right after a feed of the watchdog.
  pub data Reached (from to : ℕ) (log : List Event) : ℕ → List Event → Type 0 where
    begun : Reached from to log from log
    page :
        {a : ℕ} {log' : List Event}
        → Reached from to log a log'
        → a < to
        → chip.succeeds (erased a (min (a + 4096) to)) ≡ true
        → Reached from to log (min (a + 4096) to) (erased a (min (a + 4096) to) ∷ fed ∷ log')

  -- How an erase up to `to` may end.
  abbrev pub IsErased : ℕ → ℕ → List Event → Bool × DfuFlash → Type 0
  IsErased from to log (true, f) = Reached from to log to f.log
  IsErased from to log (false, f) =
      (a : ℕ) × (log' : List Event) × Reached from to log a log'
      × (a < to)
      × (chip.succeeds (erased a (min (a + 4096) to)) ≡ false)
      × (f.log ≡ erased a (min (a + 4096) to) ∷ fed ∷ log')

  erase-from :
      (fuel from addr to : ℕ) (log : List Event) (f : DfuFlash)
      → Reached from to log addr f.log
      → to + 4096 ≤ 2 ^ 32
      → addr ≤ to
      → to < fuel + addr
      → (r : Bool × DfuFlash) × (erase fuel addr to f ≡ some r) × IsErased from to log r
  unfolding erase
  erase-from zero from addr to log f so_far fits le lt = absurd (omega arith)
  erase-from (suc fuel) from addr to log f so_far fits le lt = elim (Bool-cases (ltb addr to)) [
    | inr full ↦ (
      (true, f),
      rw (erase, full) refl,
      subst (λ n. Reached from to log n f.log) (ground arith) so_far,
    )
    | inl room ↦
        let lt' = ltb→lt addr to room in
        let end = page_end addr to in
        let (q, moved, short) = page_end_lem addr to fits lt' in
        elim (Bool-cases (chip.succeeds (erased addr end))) [
          | inr failed ↦ (
            (false, (operate (erased addr end) f).1),
            rw (erase, room, failed) refl,
            (
              addr,
              f.log,
              so_far,
              lt',
              subst (λ n. chip.succeeds (erased addr n) ≡ false) q failed,
              ap (λ n. erased addr n ∷ fed ∷ f.log) q,
            ),
          )
          | inl fine ↦
              let (r, run, good) =
                erase-from fuel from end to log (operate (erased addr end) f).1
                  (subst (λ n. Reached from to log n (erased addr n ∷ fed ∷ f.log)) (sym q)
                    (page so_far lt' (subst (λ n. chip.succeeds (erased addr n) ≡ true) q fine)))
                  fits short (omega (arith, moved, lt)) in
              (r, rw (erase, room, fine) run, good)
        ]
  ]

  -- An erase of a range that ends 4096 bytes below 2^32, as every one in the flash does, always ends.
  -- If it returns Ok, it erased all of the range by operations of 4096 bytes, the last one up to the
  -- end of the range, and with a feed of the watchdog right before each. If not, it stopped at the
  -- first operation that the driver could not do, and all before that is erased in the same way.
  pub erase_lem :
      (from to : ℕ) (f : DfuFlash)
      → from ≤ to
      → to + 4096 ≤ 2 ^ 32
      → (r : Bool × DfuFlash) × (erase (to + 1) from to f ≡ some r) × IsErased from to f.log r
  erase_lem from to f le fits = erase-from (to + 1) from from to f.log f begun fits le (omega arith)
