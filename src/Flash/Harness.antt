-- ===== src/Flash/Harness.antt =====
-- The harness that tries an update from the spare region: app/src/bin/update_selftest.rs. The updater
-- is outside the sources: `Bench` is what its calls answer, and the bytes of the flash by address. The
-- log holds what the harness does, the newest first.
pub mod Copy
use garagelight.Prelude.{
  ℕ, zero, suc, ◌+◌, ◌-◌, ◌*◌, ◌^◌, Bool, true, false, not, ◌&&◌, ◌||◌, List, [], ◌∷◌, Option, none,
  some, min, ltb, ◌==◌, if◌then◌else◌, Bytes,
}
use garagelight.Result.{Result, ok, err}
use garagelight.Flash.{spare}
use garagelight.Ota.SelfTest.Boot.{BootState, boot, swap, reverted, dfu_detach}

abbrev pub control_bytes : ℕ
control_bytes = 12

abbrev pub control_magic : ℕ
control_magic = 0x5433_4C47

abbrev pub mode_exercise : ℕ
mode_exercise = 0

abbrev pub mode_swap : ℕ
mode_swap = 1

abbrev pub chunk_bytes : ℕ
chunk_bytes = 4096

pub data Event : Type 0 where
  fed : Event
  prepared : Event
  written : ℕ → Bytes → Event
  marked : Event

pub record Bench : Type 0 where
  pub flash : ℕ → ℕ
  pub state : Result Unit BootState
  pub prepares : Bool
  pub writes : ℕ → Bytes → Bool
  pub marks : Bool

-- Why the harness halts.
pub data Halt : Type 0 where
  no_control bad_length bad_mode no_state not_prepared not_marked exercised : Halt
  other_state : BootState → Halt
  not_written : ℕ → Halt

pub data End : Type 0 where
  halted : Halt → End
  reset : End

module _ (bench : Bench) where
  -- A little-endian word of the spare region.
  abbrev pub read_u32 : ℕ → ℕ
  read_u32 offset =
      let b = λ (i : ℕ). bench.flash (spare.base + offset + i) in
      b 0 + b 1 * 2 ^ 8 + b 2 * 2 ^ 16 + b 3 * 2 ^ 24

  -- The bytes of a slice of `len` bytes, from `offset` of the spare region.
  unfoldable pub read_image : ℕ → ℕ → Bytes
  read_image zero offset = []
  read_image (suc len) offset = bench.flash (spare.base + offset) ∷ read_image len (offset + 1)

  -- The loop, on fuel: the offset of the write that failed, if any, and the log.
  unfoldable pub copy : ℕ → ℕ → ℕ → List Event → Option (Option ℕ × List Event)
  copy zero offset len log = none
  copy (suc fuel) offset len log = elim (ltb offset len) [
    | false ↦ some (none, log)
    | true ↦
        let chunk = min (len - offset) chunk_bytes in
        let image = read_image chunk (control_bytes + offset) in
        elim (bench.writes offset image) [
          | false ↦ some (some offset, written offset image ∷ fed ∷ log)
          | true ↦ copy fuel (offset + chunk) len (written offset image ∷ fed ∷ log)
        ]
  ]

  -- The part behind the writes.
  unfoldable pub finish : ℕ → List Event → End × List Event
  finish mode log =
      if mode == mode_swap
      then if bench.marks
        then (reset, marked ∷ fed ∷ log)
        else (halted not_marked, marked ∷ fed ∷ log)
      else (halted exercised, fed ∷ log)

  unfoldable pub copied : ℕ → Option (Option ℕ × List Event) → Option (End × List Event)
  unfolding finish
  copied mode none = none
  copied mode (some (some offset, log)) = some (halted (not_written offset), log)
  copied mode (some (none, log)) = some (finish mode log)

  -- The part behind the control block.
  unfoldable pub apply : ℕ → ℕ → ℕ → List Event → Option (End × List Event)
  unfolding copy copied
  apply fuel mode len log = elim bench.state [
    | err _ ↦ some (halted no_state, log)
    | ok swap ↦ some (halted (other_state swap), log)
    | ok reverted ↦ some (halted (other_state reverted), log)
    | ok dfu_detach ↦ some (halted (other_state dfu_detach), log)
    | ok boot ↦ elim bench.prepares [
      | false ↦ some (halted not_prepared, prepared ∷ log)
      | true ↦ copied mode (copy fuel 0 len (prepared ∷ log))
    ]
  ]

  unfoldable pub main : ℕ → Option (End × List Event)
  unfolding apply
  main fuel =
      let log = fed ∷ [] in
      let mode = read_u32 4 in
      let len = read_u32 8 in
      if not (read_u32 0 == control_magic)
      then some (halted no_control, log)
      else if len == 0 || ltb (spare.bytes - control_bytes) len
      then some (halted bad_length, log)
      else if not (mode == mode_exercise) && not (mode == mode_swap)
      then some (halted bad_mode, log)
      else apply fuel mode len log
