-- ===== src/Telemetry/Task.antt =====
-- The telemetry task: app/src/telemetry.rs. The network stack, the MQTT client and the channel of
-- samples are outside this file's sources: `World` is the state behind them, and the record `Mqtt`
-- holds the calls. The address of the broker and the version are set when the firmware is built.
pub mod Reconnect
pub mod Serves
pub mod Steady
pub mod Session
pub mod Whole
pub mod Life
use garagelight.Prelude.{
  ℕ, zero, suc, Bool, true, false, ◌||◌, List, [], ◌∷◌, Option, none, some, if◌then◌else◌, Bytes,
  codes,
}
use garagelight.Result.{Result, ok, err}
use garagelight.Sensor.{Sample}
use garagelight.Ota.Link.{Timed, answered, timed_out}
use garagelight.Telemetry.{
  Ipv4, Inbound, request_update, ignore, classify_inbound, encode_sample, parse_broker,
  max_sample_payload, reset_topic,
}

abbrev pub subscribe_poll_limit : ℕ
subscribe_poll_limit = 8

abbrev pub mqtt_topic : Bytes
mqtt_topic = codes "garage/temperature"

-- An error of the client: the connection is gone, or something else.
pub data ClientError : Type 0 where
  gone failed : ClientError

pub data ConnectEvent : Type 0 where
  connected reconnected : ConnectEvent

-- `SessionEnd`.
pub data SessionEnd : Type 0 where
  broker_invalid connect_failed connect_timeout handshake_failed handshake_timeout : SessionEnd
  subscribe_failed subscribe_poll poll encode_failed publish : SessionEnd

-- `subscribe` gives the number of the operation, `poll` the topic of a message.
pub record Mqtt (World : Type 0) : Type 0 where
  pub wait_config_up : World → World
  pub connect : Ipv4 → ℕ → World → Timed (Result Unit Unit) × World
  pub handshake : World → Timed (Result Unit Unit) × World
  pub connect_event : World → ConnectEvent
  pub subscribe : Bytes → World → Result Unit ℕ × World
  pub is_complete : ℕ → World → Bool
  pub is_invalidated : ℕ → World → Bool
  pub poll : World → Timed (Result ClientError (Option Bytes)) × World
  pub sample_pending : World → Bool
  pub wait_sample : World → Sample × World
  pub publish : Bytes → Bytes → World → Result ClientError Unit × World

-- What the task does and is told. `received` is a message that a poll returned.
pub data Act : Type 0 where
  stored : Bool → Act
  received : Bytes → Act
  check_requested : Act
  published : Bytes → Bytes → Act
  rejoin_requested : Act
  waited : ℕ → Act

-- The log, the newest first, and the world.
pub record Task (World : Type 0) : Type 0 where
  pub log : List Act
  pub world : World

module _ {World : Type 0} (mqtt : Mqtt World) (broker : Bytes) (version : ℕ) where
  abbrev pub did : Act → Task World → Task World
  did a t = record t { log = a ∷ t.log }

  -- How a part of a session ends: with a result, or with none while it goes on.
  abbrev pub Ends : Type 0
  Ends = Option (Result SessionEnd Unit) × Task World

  -- The log of a poll.
  abbrev pub heard : Timed (Result ClientError (Option Bytes)) → List Act → List Act
  heard (answered (ok (some topic))) log = received topic ∷ log
  heard (answered (ok none)) log = log
  heard (answered (err e)) log = log
  heard timed_out log = log

  abbrev pub polled : Task World → Task World
  polled t = let (answer, w) = mqtt.poll t.world in record { log = heard answer t.log; world = w }

  -- The end of the session that a poll means, if any.
  abbrev pub ends_by :
      SessionEnd → Timed (Result ClientError (Option Bytes)) → Option (Result SessionEnd Unit)
  ends_by reason (answered (ok _)) = none
  ends_by reason (answered (err gone)) = some (ok tt)
  ends_by reason (answered (err failed)) = some (err reason)
  ends_by reason timed_out = none

  -- The loop that waits for the SUBACK, with the polls that are left.
  unfoldable pub subscribing : ℕ → ℕ → Task World → Ends
  subscribing zero op t = (none, t)
  subscribing (suc left) op t =
      elim (mqtt.is_complete op t.world || mqtt.is_invalidated op t.world) [
        | true ↦ (none, t)
        | false ↦ elim (ends_by subscribe_poll (mqtt.poll t.world).0) [
          | some r ↦ (some r, polled t)
          | none ↦ subscribing left op (polled t)
        ]
      ]

  unfoldable pub on_connected : Task World → Ends
  unfolding subscribing
  on_connected t =
      let (answer, w) = mqtt.subscribe reset_topic t.world in
      elim answer [
        | err _ ↦ (some (err subscribe_failed), record t { world = w })
        | ok op ↦ subscribing subscribe_poll_limit op (record t { world = w })
      ]

  unfoldable pub dispatch : Timed (Result ClientError (Option Bytes)) → Task World → Task World
  dispatch (answered (ok (some topic))) t = elim (classify_inbound topic) [
    | request_update ↦ did check_requested t
    | ignore ↦ t
  ]
  dispatch (answered (ok none)) t = t
  dispatch (answered (err e)) t = t
  dispatch timed_out t = t

  unfoldable pub published_by : Result ClientError Unit → Option (Result SessionEnd Unit)
  published_by (ok _) = none
  published_by (err gone) = some (ok tt)
  published_by (err failed) = some (err publish)

  -- The part under `if sensors::sample_pending()`.
  unfoldable pub report : Task World → Ends
  unfolding published_by
  report t = elim (mqtt.sample_pending t.world) [
    | false ↦ (none, t)
    | true ↦
        let (sample, w) = mqtt.wait_sample t.world in
        elim (encode_sample sample version max_sample_payload) [
          | none ↦ (some (err encode_failed), record t { world = w })
          | some payload ↦
              let (answer, w') = mqtt.publish mqtt_topic payload w in
              (
                published_by answer,
                record { log = published mqtt_topic payload ∷ t.log; world = w' },
              )
        ]
  ]

  -- The steady loop over some turns.
  unfoldable pub steady : ℕ → Task World → Ends
  unfolding dispatch report
  steady zero t = (none, t)
  steady (suc turns) t = elim (ends_by SessionEnd.poll (mqtt.poll t.world).0) [
    | some r ↦ (some r, polled t)
    | none ↦
        let (ending, t') = report (dispatch (mqtt.poll t.world).0 (polled t)) in
        elim ending [ some r ↦ (some r, t') | none ↦ steady turns t' ]
  ]

  -- The part behind the handshake.
  unfoldable pub drive : ℕ → Task World → Ends
  unfolding on_connected steady
  drive turns t = elim (mqtt.connect_event t.world) [
    | reconnected ↦ steady turns (did (stored true) t)
    | connected ↦
        let (ending, t') = on_connected (did (stored true) t) in
        elim ending [ some r ↦ (some r, t') | none ↦ steady turns t' ]
  ]

  unfoldable pub run_session : ℕ → Task World → Ends
  unfolding drive
  run_session turns t = elim (parse_broker broker) [
    | none ↦ (some (err broker_invalid), t)
    | some (addr, port) ↦
        let (answer, w) = mqtt.connect addr port t.world in
        elim answer [
          | timed_out ↦ (some (err connect_timeout), record t { world = w })
          | answered (err _) ↦ (some (err connect_failed), record t { world = w })
          | answered (ok _) ↦
              let (shake, w') = mqtt.handshake w in
              elim shake [
                | timed_out ↦ (some (err handshake_timeout), record t { world = w' })
                | answered (err _) ↦ (some (err handshake_failed), record t { world = w' })
                | answered (ok _) ↦ drive turns (record t { world = w' })
              ]
        ]
  ]

  unfoldable pub connect_and_run : ℕ → Task World → Ends
  unfolding run_session
  connect_and_run turns t =
      let (ending, t') = run_session turns (did (stored false) t) in
      elim ending [ none ↦ (none, t') | some r ↦ (some r, did (stored false) t') ]
