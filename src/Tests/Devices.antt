-- ===== src/Tests/Devices.antt =====
-- The beam contract, the lamp, the WiFi counters and the sensor at concrete inputs.
use garagelight.Prelude.{
  Bool, refl, replicate, ℕ, ◌+◌, ◌*◌, ◌≤◌, ◌≡◌, ◌↔◌, true, false, List, [], ◌∷◌, Option, some, pos,
  negsuc, arith, if◌then◌else◌, ltb,
}
use garagelight.Contract.{broken}
use garagelight.Lamp.{LampEvent, level}
use garagelight.Lamp.Leash.{History, run, Holds, run-Holds}
use garagelight.Lamp.Pin.{low, high, lamp_task, last_time, driven, Alternates, lamp_task-level}
use garagelight.Wifi.Supervisor.{Join, Answers, start, turn, supervise}
use garagelight.Wifi.Supervisor.Requests.{Station}
use garagelight.Wifi.Supervisor.Outage.{IsOut, waited, turn-resets, supervise-outage}
use garagelight.Flash.Dfu.{Chip, DfuFlash, erase, IsErased, erase_lem}
use garagelight.Sensor.{Sample, Attempt, in_range}
use garagelight.Sensor.Task.{Driver, reading, sampling_round, sampling_round_lem, IsFresh}

abbrev one : ℕ
one = 1

-- A break of the beam, seen again by a tick 10 s later.
abbrev seen : History
seen = (LampEvent.tick, 11_000) ∷ (LampEvent.fact broken, 1_000) ∷ []

run-Holds_example :
    Holds broken 1_000 seen
    ↔ (((run seen).fault ≡ false) × ((run seen).fact ≡ broken) × ((run seen).last_write_ms ≡ 1_000))
run-Holds_example = run-Holds broken 1_000 seen

lamp_task-level_example :
    (driven (lamp_task 0 seen).output ≡ (if level (run seen) (last_time 0 seen) then high else low))
    × Alternates (lamp_task 0 seen).output
lamp_task-level_example = lamp_task-level 0 seen

-- A turn that does not join.
abbrev no_network : Answers
no_network = record {
  rejoin_requested = false;
  join = Join.join_failed;
  dhcp = λ n. false;
  has_config = false;
}

abbrev out : IsOut no_network
out = (refl, refl)

turn-resets_example :
    ((turn start no_network).1 ≡ true) ↔ (180 * 1_000_000_000 ≤ waited (no_network ∷ []))
turn-resets_example = turn-resets [] start no_network refl

supervise-outage_example : supervise start (replicate 6 no_network) ≡ true
supervise-outage_example =
    supervise-outage [] start (replicate 6 no_network) refl
      (out, (out, (out, (out, (out, (out, tt)))))) (omega arith)

-- A driver that always succeeds, in 30 ms.
abbrev nor : Chip
nor = record { succeeds = λ e. true; elapsed_us = λ e. 30_000 }

abbrev fresh_flash : DfuFlash
fresh_flash = record { log = []; max_window_us = 0 }

erase_lem_example :
    (r : Bool × DfuFlash) × (erase nor (10_000 + 1) 0 10_000 fresh_flash ≡ some r)
    × IsErased nor 0 10_000 [] r
erase_lem_example = erase_lem nor 0 10_000 fresh_flash (omega arith) (omega arith)

abbrev mild : Sample
mild = record { temperature = negsuc 4; relative_humidity = 80 }

-- A sensor that fails its first read.
abbrev second_try : ℕ → Attempt × ℕ
second_try n = (if ltb n 1 then Attempt.checksum else Attempt.ok mild, n + 1)

-- A sensor whose reads take 20 ms, on a clock of its own.
abbrev bench : Driver ℕ
bench = record {
  now_us = λ t. (t, t);
  read = λ t. (reading (pos 21) 55, t + 20_000);
  settle = λ t. t + 2_000_000;
  wait = λ us t. t + us;
}

sampling_round_lem_example :
    (sample : Option Sample) × (w' : ℕ) × (sampling_round bench 0 ≡ some (sample, w'))
    × ((s : Sample) → sample ≡ some s → (in_range s ≡ true) × IsFresh bench s)
sampling_round_lem_example = sampling_round_lem bench 0

-- A rejoin is asked for twice while the first turn runs.
abbrev hurried : List (Answers × ℕ)
hurried = (no_network, 2) ∷ (no_network, 0) ∷ (no_network, 0) ∷ []

abbrev quiet : Station
quiet = record { supervisor = start; flag = false }
