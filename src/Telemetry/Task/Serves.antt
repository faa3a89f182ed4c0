-- ===== src/Telemetry/Task/Serves.antt =====
-- What the steady loop of the telemetry task does with the messages and the samples:
-- app/src/telemetry.rs.
use garagelight.Prelude.{
  ℕ, suc, ◌^◌, ◌<◌, ◌≡◌, ◌≢◌, ◌∙◌, ◌⊎◌, inl, inr, refl, sym, ap, subst, true, false, List, ◌∷◌,
  Option, none, some, arith, Bytes, bytes_eq, bytes_eq_iff, length, ltb, if◌then◌else◌, Bool-cases,
}
use garagelight.Result.{Result, ok, err}
use garagelight.Sensor.{Sample}
use garagelight.Ota.Link.{Timed, answered, timed_out}
use garagelight.Telemetry.{request_update, ignore, classify_inbound, encode_sample, reset_topic}
use garagelight.Telemetry.Payload.{payload, IsWire, encode_sample-payload}
use garagelight.Telemetry.Task.{
  mqtt_topic, SessionEnd, ClientError, gone, failed, encode_failed, Mqtt, Act, received,
  check_requested, published, Task, heard, dispatch, Ends,
}

-- The channel of samples hands on what a sensor can measure.
pub record IsMeasured {World : Type 0} (mqtt : Mqtt World) : Type 0 where
  pub wire : (w : World) → mqtt.sample_pending w ≡ true → IsWire (mqtt.wait_sample w).0

-- What a turn logs of the answer to its poll: a message on the reset topic requests a check, and
-- no other answer does.
pub data Sorted (log : List Act)
    : Timed (Result ClientError (Option Bytes)) → List Act → Type 0 where
  checked :
      Sorted log (answered (ok (some reset_topic))) (check_requested ∷ received reset_topic ∷ log)
  ignored :
      (topic : Bytes)
      → topic ≢ reset_topic
      → Sorted log (answered (ok (some topic))) (received topic ∷ log)
  silent : Sorted log (answered (ok none)) log
  late : Sorted log timed_out log

classify-cases :
    (topic : Bytes)
    → ((classify_inbound topic ≡ request_update) × (topic ≡ reset_topic))
      ⊎ ((classify_inbound topic ≡ ignore) × (topic ≢ reset_topic))
unfolding classify_inbound
classify-cases topic = elim (Bool-cases (bytes_eq topic reset_topic)) [
  | inl e ↦ inl (rw e refl, (bytes_eq_iff topic reset_topic).0 e)
  | inr e ↦ inr (rw e refl, λ same. cc ((bytes_eq_iff topic reset_topic).1 same, e))
]

pub encode-wire :
    (s : Sample) (version : ℕ)
    → IsWire s
    → version < 2 ^ 32
    → encode_sample s version 54 ≡ some (payload s version)
encode-wire s version wire small =
    let (short, text) = encode_sample-payload s version wire small in
    text 54 ∙ ap (λ b. if b then none else some (payload s version)) fits
  where
    fits : ltb 54 (length (payload s version)) ≡ false
    fits = ground (arith, (encode_sample-payload s version wire small).0)

module _ {World : Type 0} (mqtt : Mqtt World) (broker : Bytes) (version : ℕ) where
  abbrev pub task : List Act → World → Task World
  task log w = record { log = log; world = w }

  -- The world behind the sample of a turn, and behind its publication, from the world behind the poll.
  abbrev pub Published : World → Sample → Result ClientError Unit → World → Type 0
  Published w s answer v =
      (mqtt.sample_pending w ≡ true)
      × (s ≡ (mqtt.wait_sample w).0)
      × IsWire s
      × (mqtt.publish mqtt_topic (payload s version) (mqtt.wait_sample w).1 ≡ (answer, v))

  -- The steady loop over some turns. Each polls once; a poll that fails ends the session, and well if
  -- it is for want of a connection. A sample that is pending is published, and nothing else is; a
  -- publication that fails ends the session in the same way.
  pub data Serves : ℕ → Task World → Ends mqtt broker version → Type 0 where
    watched : {t : Task World} → Serves 0 t (none, t)
    closed :
        {turns : ℕ} {t : Task World}
        → (mqtt.poll t.world).0 ≡ answered (err gone)
        → Serves (suc turns) t (some (ok tt), task t.log (mqtt.poll t.world).1)
    unpolled :
        {turns : ℕ} {t : Task World}
        → (mqtt.poll t.world).0 ≡ answered (err failed)
        → Serves (suc turns) t (some (err SessionEnd.poll), task t.log (mqtt.poll t.world).1)
    idle :
        {turns : ℕ} {t : Task World} {log : List Act} {e : Ends mqtt broker version}
        → Sorted t.log (mqtt.poll t.world).0 log
        → mqtt.sample_pending (mqtt.poll t.world).1 ≡ false
        → Serves turns (task log (mqtt.poll t.world).1) e
        → Serves (suc turns) t e
    reported :
        {turns : ℕ} {t : Task World} {log : List Act} {s : Sample} {v : World}
        {e : Ends mqtt broker version}
        → Sorted t.log (mqtt.poll t.world).0 log
        → Published (mqtt.poll t.world).1 s (ok tt) v
        → Serves turns (task (published mqtt_topic (payload s version) ∷ log) v) e
        → Serves (suc turns) t e
    closed_late :
        {turns : ℕ} {t : Task World} {log : List Act} {s : Sample} {v : World}
        → Sorted t.log (mqtt.poll t.world).0 log
        → Published (mqtt.poll t.world).1 s (err gone) v
        → Serves
            (suc turns)
            t
            (some (ok tt), task (published mqtt_topic (payload s version) ∷ log) v)
    unpublished :
        {turns : ℕ} {t : Task World} {log : List Act} {s : Sample} {v : World}
        → Sorted t.log (mqtt.poll t.world).0 log
        → Published (mqtt.poll t.world).1 s (err failed) v
        → Serves
            (suc turns)
            t
            (some (err SessionEnd.publish), task (published mqtt_topic (payload s version) ∷ log) v)

  abbrev pub Dispatched : Timed (Result ClientError (Option Bytes)) → List Act → World → Type 0
  Dispatched a log w =
      (log' : List Act) × Sorted log a log'
      × (dispatch mqtt broker version a (task (heard mqtt broker version a log) w) ≡ task log' w)

  pub dispatch-some :
      (topic : Bytes) (log : List Act) (w : World) → Dispatched (answered (ok (some topic))) log w
  unfolding dispatch
  dispatch-some topic log w = elim (classify-cases topic) [
    | inl (c, same) ↦ (
      check_requested ∷ received topic ∷ log,
      subst (λ z. Sorted log (answered (ok (some z))) (check_requested ∷ received z ∷ log))
          (sym same) checked,
      rw (dispatch, c) refl,
    )
    | inr (c, differ) ↦ (received topic ∷ log, ignored topic differ, rw (dispatch, c) refl)
  ]

  -- An end that is not for want of a payload.
  abbrev pub IsEncoded : Option (Result SessionEnd Unit) → Type 0
  IsEncoded ending = ending ≢ some (err encode_failed)

  abbrev pub IsServed : ℕ → Task World → Ends mqtt broker version → Type 0
  IsServed turns t e = Serves turns t e × IsEncoded e.0
