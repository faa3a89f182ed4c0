-- ===== src/Tests/Tasks.antt =====
-- The BLE task, the telemetry task and the boot at concrete inputs.
use garagelight.Prelude.{
  ℕ, ◌+◌, ◌%◌, ◌≡◌, ◌↔◌, refl, Bool, true, false, List, [], ◌∷◌, some, arith, leb, ◌==◌,
  if◌then◌else◌, Bytes, codes, pos,
}
use garagelight.Result.{ok, err}
use garagelight.Contract.{broken, validate_write}
use garagelight.Lamp.{LampEvent, fact, link_down, tick}
use garagelight.Lamp.Leash.{History}
use garagelight.Ble.{
  Write, Attempt, advertise_failed, connected, write, other, Setup, boot, parsed, on_command,
  on_write, serve, attempts, peripheral_task,
}
use garagelight.Ble.Posts.{posts}
use garagelight.Ble.Shown.{control, Current, Ticked, peripheral_task-lamp}
use garagelight.Sensor.{Sample}
use garagelight.Ota.Link.{answered, timed_out}
use garagelight.Ota.SelfTest.{Report}
use garagelight.Ota.SelfTest.Verdict.{IsSteady}
use garagelight.Ota.SelfTest.Boot.{
  Firmware, swap, End, reset, board, run, IsRight, run_lem, run-fail_ble,
}
use garagelight.Telemetry.{reset_topic}
use garagelight.Telemetry.Payload.{IsWire}
use garagelight.Telemetry.Task.{
  Mqtt, gone, failed, SessionEnd, connect_timeout, poll, Task, connect_and_run,
}
use garagelight.Telemetry.Task.Serves.{IsMeasured}
use garagelight.Telemetry.Task.Whole.{Ran, connect_and_run_lem}
use garagelight.Telemetry.Task.Reconnect.{start, telemetry_task}
use garagelight.Telemetry.Task.Life.{Life, telemetry_task_lem}

abbrev built : Setup
built = record { server = true; adv = true; scan = true }

-- One byte, as a write command.
abbrev command : ℕ → Write
command byte = record { is_request = false; payload = byte ∷ []; accepts = true; rejects = true }

-- The first advertisement fails; then the sensor connects, writes a byte that is no fact, and breaks.
abbrev linked : List Attempt
linked = advertise_failed ∷ connected (write (command 7) ∷ other ∷ write (command 1) ∷ []) ∷ []

abbrev shown : History
shown = (tick, 11_000) ∷ (fact broken, 1_000) ∷ []

fed : control shown ≡ posts (peripheral_task built linked).log
unfolding peripheral_task boot attempts serve on_write on_command parsed validate_write
fed = refl

peripheral_task-lamp_example :
    (((garagelight.Lamp.Leash.run shown).fault ≡ false)
      × ((garagelight.Lamp.Leash.run shown).fact ≡ broken)
      × ((garagelight.Lamp.Leash.run shown).last_write_ms ≡ 1_000))
    ↔ (Current broken linked × Ticked 1_000 shown)
peripheral_task-lamp_example = peripheral_task-lamp built linked shown broken 1_000 refl fed

abbrev mild : Sample
mild = record { temperature = pos 21; relative_humidity = 60 }

abbrev mild_wire : IsWire mild
mild_wire = record {
  temperature_least = omega arith;
  temperature_most = omega arith;
  humidity_most = omega arith;
}

-- A broker on a clock of polls: the SUBACK comes at the third; every fifth poll brings a message on
-- the reset topic, a sample waits at every fourth, and the connection breaks at poll 20.
abbrev client : Mqtt ℕ
client = record {
  wait_config_up = λ t. t;
  connect = λ addr port t. (answered (ok tt), t);
  handshake = λ t. (answered (ok tt), t);
  connect_event = λ t. garagelight.Telemetry.Task.connected;
  subscribe = λ topic t. (ok 0, t);
  is_complete = λ op t. leb 3 t;
  is_invalidated = λ op t. false;
  poll = λ t. (
    (if t == 20
        then answered (err gone)
        else if t % 5 == 0
        then answered (ok (some reset_topic))
        else timed_out),
    t + 1,
  );
  sample_pending = λ t. t % 4 == 0;
  wait_sample = λ t. (mild, t);
  publish = λ topic payload t. (ok tt, t);
}

measured : IsMeasured client
measured = record { wire = λ t pending. mild_wire }

abbrev broker : Bytes
broker = codes "mqtt://192.168.0.10"

abbrev fresh : Task ℕ
fresh = record { log = []; world = 0 }

connect_and_run_lem_example :
    Ran client broker 7 measured
      (omega arith)
      30
      fresh.world
      []
      (connect_and_run client broker 7 30 fresh)
connect_and_run_lem_example = connect_and_run_lem client broker 7 measured (omega arith) 30 fresh

telemetry_task_lem_example :
    Life client broker 7 measured
      (omega arith)
      (30 ∷ 4 ∷ [])
      []
      fresh
      (telemetry_task client broker 7 (30 ∷ 4 ∷ []) start fresh).1
telemetry_task_lem_example =
    telemetry_task_lem client broker 7 measured (omega arith) (30 ∷ 4 ∷ []) fresh

-- A board on a clock of milliseconds that is up after 3 s, behind a swap.
abbrev updated : Firmware ℕ
updated = record {
  get_state = λ t. (ok swap, t);
  mark_booted = λ t. (ok tt, t + 1);
  ble_advertising = λ t. leb 3_000 t;
  lamp_ready = λ t. true;
  wifi_associated = λ t. false;
  mqtt_connected = λ t. false;
  now_ms = λ t. (t, t);
  wait = λ ms t. t + ms;
}

abbrev updated_steady : (fail_ble : Bool) → IsSteady (board updated fail_ble)
updated_steady fail_ble = record {
  time = λ t. t;
  sampled = λ t. omega arith;
  read_least = λ t. omega arith;
  read_most = λ t. omega arith;
  waited = λ ms t. omega arith;
}

run_lem_example :
    (r : End × ℕ) × (run updated false 121 0 ≡ some r) × IsRight updated false (ok swap, 0) r
run_lem_example = run_lem updated false (updated_steady false) 0

run-fail_ble_example : (r : Report) × (t : ℕ) × (run updated true 121 0 ≡ some (reset r, t))
run-fail_ble_example = run-fail_ble updated 0 (updated_steady true) refl
