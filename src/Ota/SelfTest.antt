-- ===== src/Ota/SelfTest.antt =====
-- The self-test of a freshly swapped image: core/src/ota/selftest.rs. The probe and the clock are
-- traits; `World` is the state behind them, and the record `Board` holds their calls.
pub mod Verdict
pub mod Boot
use garagelight.Prelude.{
  ℕ, zero, suc, ◌-◌, Bool, false, ◌&&◌, ◌||◌, Option, none, some, leb, if◌then◌else◌,
}

abbrev pub self_test_window_ms : ℕ
self_test_window_ms = 30_000

abbrev pub self_test_poll_ms : ℕ
self_test_poll_ms = 250

pub record Signals : Type 0 where
  pub ble_advertising : Bool
  pub lamp_ready : Bool
  pub wifi_associated : Bool
  pub mqtt_connected : Bool

pub data Outcome : Type 0 where
  confirm revert : Outcome

pub record Report : Type 0 where
  pub verdict : Outcome
  pub ble_advertising : Bool
  pub lamp_ready : Bool
  pub wifi_associated : Bool
  pub mqtt_connected : Bool
  pub elapsed_ms : ℕ

pub record Board (World : Type 0) : Type 0 where
  pub sample : World → Signals × World
  pub now_ms : World → ℕ × World
  pub wait : ℕ → World → World

module _ {World : Type 0} (board : Board World) where
  report : Outcome → Bool → Bool → Signals → ℕ → Report
  report verdict ble_advertising lamp_ready latest elapsed_ms = record {
    verdict = verdict;
    ble_advertising = ble_advertising;
    lamp_ready = lamp_ready;
    wifi_associated = latest.wifi_associated;
    mqtt_connected = latest.mqtt_connected;
    elapsed_ms = elapsed_ms;
  }

  -- The loop, on fuel; `none` means that the fuel ran out. A clock that ran backwards would make
  -- the source's subtraction overflow, where this one stops at 0.
  poll : ℕ → ℕ → Bool → Bool → World → Option (Report × World)
  unfolding report
  poll zero start ble lamp w = none
  poll (suc fuel) start ble lamp w =
      let (latest, w₁) = board.sample w in
      let ble_advertising = ble || latest.ble_advertising in
      let lamp_ready = lamp || latest.lamp_ready in
      let (now, w₂) = board.now_ms w₁ in
      let elapsed = now - start in
      let again = poll fuel start ble_advertising lamp_ready (board.wait self_test_poll_ms w₂) in
      if ble_advertising && lamp_ready
      then some (report confirm ble_advertising lamp_ready latest elapsed, w₂)
      else if leb self_test_window_ms elapsed
      then some (report revert ble_advertising lamp_ready latest elapsed, w₂)
      else again

  pub self_test : ℕ → World → Option (Report × World)
  unfolding poll
  self_test fuel w = let (start, w₁) = board.now_ms w in poll fuel start false false w₁
