-- ===== src/Sensor/Task.antt =====
-- The sampling task on the second core: app/src/sensors.rs. The driver of the sensor is outside the
-- sources: `World` is its state and that of the timer, and the record `Driver` holds its calls.
use garagelight.Prelude.{zero, suc, ◌∙◌, suc, ◌>>=◌}
use garagelight.Prelude.{
  not, ℕ, ◌+◌, ◌-◌, ◌*◌, ◌<◌, ◌≡◌, Bool, true, false, Option, some, ltb, if◌then◌else◌, ℤ, arith,
}
use garagelight.Sensor.{
  Sample, Attempt, ok, checksum, timeout, pin, stalled, read_stall_us, read_with_retries, accepted,
  in_range,
}
use garagelight.Sensor.Retry.{Returns, after, read_with_retries_lem, outcome}

abbrev sample_interval_us : ℕ
sample_interval_us = 15 * 1_000_000

-- What `dht11::blocking::read` returns: a reading, or one of the errors of `DhtError`.
pub data DhtResult : Type 0 where
  reading : ℤ → ℕ → DhtResult
  checksum_mismatch dht_timeout pin_error : DhtResult

-- Times of `Instant` are microseconds. `settle` is `block_for` of the retry pause.
pub record Driver (World : Type 0) : Type 0 where
  pub now_us : World → ℕ × World
  pub read : World → DhtResult × World
  pub settle : World → World
  pub wait : ℕ → World → World

module _ {World : Type 0} (driver : Driver World) where
  classify : DhtResult → ℕ → Attempt
  classify (reading temperature humidity) elapsed_us =
      if ltb elapsed_us read_stall_us
      then ok (record { temperature = temperature; relative_humidity = humidity })
      else stalled
  classify checksum_mismatch elapsed_us = checksum
  classify dht_timeout elapsed_us = timeout
  classify pin_error elapsed_us = pin

  pub read_once : World → Attempt × World
  unfolding classify
  read_once w =
      let (attempt_start, w₁) = driver.now_us w in
      let (result, w₂) = driver.read w₁ in
      let (stop, w₃) = driver.now_us w₂ in (classify result (stop - attempt_start), w₃)

  -- The closure handed to the retry loop, with its flag `first_attempt`.
  attempt : World × Bool → Attempt × (World × Bool)
  unfolding read_once
  attempt (w, first_attempt) =
      let settled = if not first_attempt then driver.settle w else w in
      let (a, w') = read_once settled in (a, (w', false))

  -- The absolute cadence: wait for what is left of the period.
  rest_until : ℕ → World → World
  rest_until next w =
      let (now, w') = driver.now_us w in if ltb now next then driver.wait (next - now) w' else w'

  -- One round of the task's loop; the sample is the one signalled, if any.
  pub sampling_round : World → Option (Option Sample × World)
  unfolding attempt rest_until
  sampling_round w = do
    let (start, w₁) = driver.now_us w
    (sample, (w₂, _)) ← read_with_retries attempt (w₁, true)
    some (sample, rest_until (start + sample_interval_us) w₂)

  -- A reading `s` that the sensor gave within 50 ms of being asked, in some state of the world.
  pub record IsFresh (s : Sample) : Type 0 where
    pub world : World
    pub read_is :
        (driver.read (driver.now_us world).1).0 ≡ reading s.temperature s.relative_humidity
    pub elapsed :
        (driver.now_us (driver.read (driver.now_us world).1).1).0 - (driver.now_us world).0 < 50_000

  read_once-IsFresh : (w : World) (s : Sample) → (read_once w).0 ≡ ok s → IsFresh s
  unfolding read_once
  read_once-IsFresh w s e = record {
    world = w;
    read_is = (classified _ _ s e).0;
    elapsed = (classified _ _ s e).1;
  }
    where
      classified :
          (result : DhtResult) (us : ℕ) (s : Sample)
          → classify result us ≡ ok s
          → (result ≡ reading s.temperature s.relative_humidity) × (us < 50_000)
      classified result us s e = unfold classify in ground arith

  outcome-IsFresh : (i : ℕ) (p : World × Bool) (s : Sample) → outcome attempt i p ≡ ok s → IsFresh s
  outcome-IsFresh i p s e = from_attempt (after attempt i p) e
    where
      opened :
          (w : World) (first : Bool)
          → (attempt (w, first)).0 ≡ ok s
          → (read_once (if not first then driver.settle w else w)).0 ≡ ok s
      opened w first e' = unfold attempt in e'

      from_attempt : (q : World × Bool) → (attempt q).0 ≡ ok s → IsFresh s
      from_attempt (w, first) e' =
          read_once-IsFresh (if not first then driver.settle w else w) s (opened w first e')

  accepted-some :
      (a : Attempt) (s : Sample) → accepted a ≡ some s → (a ≡ ok s) × (in_range s ≡ true)
  unfolding accepted
  accepted-some a s e = ground arith

  -- A round always returns, and a sample that it signals is in range and was read from the sensor
  -- in less than 50 ms.
  pub sampling_round_lem :
      (w : World)
      → (sample : Option Sample) × (w' : World) × (sampling_round w ≡ some (sample, w'))
        × ((s : Sample) → sample ≡ some s → (in_range s ≡ true) × IsFresh s)
  unfolding sampling_round
  sampling_round_lem w = go (read_with_retries_lem attempt ((driver.now_us w).1, true))
    where
      go :
          Returns attempt 3
            ((driver.now_us w).1, true)
            (read_with_retries attempt ((driver.now_us w).1, true))
          → (sample : Option Sample) × (w' : World) × (sampling_round w ≡ some (sample, w'))
            × ((s : Sample) → sample ≡ some s → (in_range s ≡ true) × IsFresh s)
      go (sample, q, zero, e, v) = absurd (omega (arith, v.calls_least))
      go (sample, q, suc k, e, v) =
          (sample, rest_until ((driver.now_us w).0 + sample_interval_us) q.0, rw e, good)
        where
          good : (s : Sample) → sample ≡ some s → (in_range s ≡ true) × IsFresh s
          good s p =
              let (a, b) = accepted-some _ s (v.decisive k (omega arith) ∙ p) in
              (b, outcome-IsFresh k _ s a)
