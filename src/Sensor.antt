-- ===== src/Sensor.antt =====
-- The sampling policy of the DHT11: core/src/sensor.rs, and in the children what it guarantees and
-- the task of app/src/sensors.rs that runs it.
pub mod Retry
pub mod Task
use garagelight.Prelude.{
  ℕ, zero, suc, ◌+◌, Bool, true, false, ◌&&◌, Option, none, some, ℤ, pos, negsuc, leb_ℤ, leb,
  if◌then◌else◌,
}

-- A temperature is an `i8`, a humidity a `u8`.
pub record Sample : Type 0 where
  pub temperature : ℤ
  pub relative_humidity : ℕ

pub data Attempt : Type 0 where
  ok : Sample → Attempt
  checksum timeout pin stalled : Attempt

abbrev pub max_attempts : ℕ
max_attempts = 3

abbrev pub read_stall_us : ℕ
read_stall_us = 50_000

unfoldable pub in_range : Sample → Bool
in_range s =
    leb_ℤ (negsuc 19) s.temperature && leb_ℤ s.temperature (pos 60) && leb s.relative_humidity 100

-- The two nested tests of the loop: a sample that ends it.
unfoldable pub accepted : Attempt → Option Sample
accepted (ok s) = if in_range s then some s else none
accepted _ = none

module _ {S : Type 0} (read : S → Attempt × S) where
  -- The loop, on fuel; `none` means that the fuel ran out.
  unfoldable pub retry : ℕ → ℕ → S → Option (Option Sample × S)
  retry zero attempt s = none
  retry (suc fuel) attempt s =
      let attempt' = attempt + 1 in
      let (a, s') = read s in
      let again = retry fuel attempt' s' in
      elim (accepted a) [
        | some x ↦ some (some x, s')
        | none ↦ if leb max_attempts attempt' then some (none, s') else again
      ]

  -- `read` is a closure: a function of its state `S`.
  unfoldable pub read_with_retries : S → Option (Option Sample × S)
  unfolding retry
  read_with_retries s = retry max_attempts 0 s
