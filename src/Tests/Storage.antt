-- ===== src/Tests/Storage.antt =====
-- The adapter of the flash and the update harness at concrete inputs.
use garagelight.Prelude.{arith, ℕ, ◌+◌, ◌≡◌, refl, true, List, [], ◌∷◌, some, ◌==◌, if◌then◌else◌}
use garagelight.Result.{ok}
use garagelight.Flash.{spare}
use garagelight.Flash.Dfu.{Chip, DfuFlash}
use garagelight.Flash.Dfu.Window.{
  Call, reads, writes, erases, calls, IsWatched, DidAll, nothing, calls-IsWatched,
}
use garagelight.Ota.SelfTest.Boot.{boot}
use garagelight.Flash.Harness.{Bench, End, read_u32, main}
use garagelight.Flash.Harness.Copy.{IsEnd, main_lem}

-- A driver on which a page takes 45 ms.
abbrev chip : Chip
chip = record { succeeds = λ e. true; elapsed_us = λ e. 45_000 }

abbrev idle : DfuFlash
idle = record { log = []; max_window_us = 0 }

idle-IsWatched : IsWatched chip idle
idle-IsWatched = record { fed_before = nothing; window = refl }

abbrev session : List Call
session = erases 0 8_192 ∷ writes 0 (1 ∷ 2 ∷ []) ∷ reads 0 2 ∷ []

calls-IsWatched_example :
    (f : DfuFlash) × (calls chip session idle ≡ some f)
    × IsWatched chip f
    × DidAll chip session [] f.log
calls-IsWatched_example =
    calls-IsWatched chip session idle (omega arith, (tt, (tt, tt))) idle-IsWatched

-- A spare region with a control block: the magic, mode 1, and an image of 5 bytes.
abbrev spare_byte : ℕ → ℕ
spare_byte a =
    if a == spare.base
    then 0x47
    else if a == spare.base + 1
    then 0x4C
    else if a == spare.base + 2
    then 0x33
    else if a == spare.base + 3
    then 0x54
    else if a == spare.base + 4
    then 1
    else if a == spare.base + 8
    then 5
    else 0

abbrev bench : Bench
bench = record {
  flash = spare_byte;
  state = ok boot;
  prepares = true;
  writes = λ offset bytes. true;
  marks = true;
}

main_lem_example :
    (r : End × List garagelight.Flash.Harness.Event) × (main bench (read_u32 bench 8 + 1) ≡ some r)
    × IsEnd bench (read_u32 bench 4) (read_u32 bench 8) r
main_lem_example = main_lem bench
