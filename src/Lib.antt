-- ===== src/Lib.antt =====
-- garagelight: the firmware of a garage light on a Pico W. A beam sensor writes one byte over BLE,
-- a lamp shows it; an image is updated over HTTP, tested after the swap, and reverted if the test
-- fails. The policies are pure code in core/src; app/src runs them on the hardware.
--
-- Each file names the source file it is about. Paths are from the root of the repository.
--
--   Contract        core/src/contract.rs: validate_write, the BLE write of the beam sensor
--   Lamp            core/src/lamp.rs: LampMachine, fault_level; Lamp/Pin is app/src/lamp.rs
--   Ble             app/src/ble.rs: peripheral_task
--   Wifi            core/src/wifi.rs: NoIpWatchdog, RejoinCounter; Supervisor is app/src/net.rs
--   Sensor          core/src/sensor.rs: read_with_retries; Sensor/Task is app/src/sensors.rs
--   Ota/Text        core/src/ota/mod.rs: parse_version, parse_sha256_hex, trim_ascii, decide
--   Ota/Base64      core/src/ota/mod.rs: base64, basic_authorization
--   Ota/Url         core/src/ota/mod.rs: parse_url, parse_authority
--   Ota/Head        core/src/ota/http.rs: HeadParser, one byte at a time
--   Ota/Transport   app/src/ota/transport.rs: the loop that feeds the parser
--   Ota/Session     core/src/ota/session.rs: apply_update
--   Ota/SelfTest    core/src/ota/selftest.rs: self_test
--   Ota/Failure     app/src/ota/mod.rs: the errors, their names and their blinks
--   Ota/Link        app/src/ota/transport.rs: resolve, open, get, read_small, HttpBody; Request
--   Ota/Check       app/src/ota/task.rs: check_and_update, ota_task
--   Ota/SelfTest/Boot  app/src/selftest.rs: BoardProbe, run
--   Version         app/build.rs, app/src/lib.rs: the version of the firmware
--   Bootloader      bootloader/build.rs: strip_comments, eval_expr, parse_memory_x, validate
--   Flash           core/src/layout.rs: the partition table; Flash/Dfu is app/src/update.rs
--   Flash/Harness   app/src/bin/update_selftest.rs: main
--   Telemetry       core/src/telemetry.rs: encode_sample, parse_broker, classify_inbound
--   Telemetry/Task  app/src/telemetry.rs: run_session, connect_and_run, telemetry_task
--   Prelude, Result, Decimal   shared helpers, and what the standard library does with numbers
--   Tests           the theorems at concrete inputs
--
-- How the parts meet: Ble takes the writes of the beam sensor through Contract, and posts events
-- that Lamp receives in order; Transport feeds Head the bytes of a response, and Text and Url read
-- the small bodies and the address; Session streams the image into the flash; Check runs these
-- over one connection after the other of Link, and ends in a reset; SelfTest decides whether the
-- new image stays. The telemetry task publishes what Sensor measured, and requests a check when it
-- is told to. The supervisor of Wifi joins the network, and resets the chip when there is none for
-- too long.
--
-- How state is modelled: a method takes the state of its object and returns the new one. A trait
-- or a driver (flasher, body, SHA-256, network, probe, clock, DHT11) is a record of functions over
-- a type World, and what is known of it is a record of laws, given an instance in Tests. An async
-- call is a call: a task runs alone between its awaits, and the events that reach it are a list.
--
-- Numbers are natural numbers. Where the source checks, wraps or saturates, the bound is written
-- out, with the sums of two u32 as in the release profile, where overflow is not checked: 2^16 -
-- 1, 2^32 - 1, 2^64 - 1, and the longest Duration. A byte is a number below 256, a text its bytes,
-- and a buffer with a length the list of the bytes in use.
--
-- Loops on fuel return an Option, with none for a loop that was cut off. The self-test needs 121
-- rounds: a window of 30 s in polls of 250 ms, and the first. The retry loop makes 3 calls. An
-- update takes one turn more than there are bytes, 780 * 1024 + 1 at most, since each turn but the
-- last brings one byte at least, and a longer image is refused. A head ends within 2049 reads for
-- the same reason, and a short body within one read more than its buffer has bytes. An erase takes
-- at most one turn for each address up to its end and one more, and the copy of an image in
-- Flash/Harness one turn for each byte of it and one more, since each turn moves on. That the fuel
-- is enough is part of the theorems on these loops.
--
-- Not modelled: the hardware and the radio, the BLE and IP stacks, the MQTT client, TLS and DNS,
-- embassy-boot, the flash driver and SHA-256, logging, and the start-up code. What the BLE stack
-- answers is a list of attempts and events, and what the MQTT client answers is read off a state
-- of the world. Loops that never end are functions of the turns that they are watched for. A
-- length is cast to 32 bits where the target does; a slice handed to a reader is given by its
-- size, and what stood in it before is not. The wait for an address at the start of a check has no
-- effect on the state.
pub mod Version
pub mod Bootloader
pub mod Ble
pub mod Prelude
pub mod Result
pub mod Decimal
pub mod Contract
pub mod Lamp
pub mod Wifi
pub mod Sensor
pub mod Ota
pub mod Tests
pub mod Telemetry
pub mod Flash
