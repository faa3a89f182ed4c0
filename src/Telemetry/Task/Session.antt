-- ===== src/Telemetry/Task/Session.antt =====
-- What an attempt of the telemetry task is, up to the steady loop: the connection, the handshake and
-- the wait for the SUBACK, app/src/telemetry.rs.
use garagelight.Prelude.{
  sym, ℕ, zero, suc, ◌+◌, ◌<◌, ◌≤◌, ◌≡◌, ◌≢◌, ◌∙◌, ◌⊎◌, inl, inr, refl, subst, Bool, true, false,
  ◌||◌, List, ◌∷◌, Option, none, some, some_inj, Bytes, Bool-cases, Option-cases, arith,
}
use garagelight.Result.{Result, ok, err}
use garagelight.Ota.Link.{Timed, answered, timed_out}
use garagelight.Telemetry.{parse_broker, Ipv4, reset_topic}
use garagelight.Telemetry.Task.{
  ClientError, gone, failed, connected, reconnected, SessionEnd, subscribe_failed, subscribe_poll,
  Mqtt, Act, stored, Task, polled, heard, ends_by, subscribing, on_connected, Ends,
}
use garagelight.Telemetry.Task.Serves.{Serves, IsEncoded}

module _ {World : Type 0} (mqtt : Mqtt World) (broker : Bytes) (version : ℕ) where
  -- Whether the client has heard of the subscription.
  abbrev pub heard_of : ℕ → World → Bool
  heard_of op w = mqtt.is_complete op w || mqtt.is_invalidated op w

  -- `n` polls from `base` and `w` on, each while the client had not heard of the subscription, and
  -- the log and the world behind them.
  pub data Waiting (op : ℕ) (base : List Act) (w : World) : ℕ → List Act → World → Type 0 where
    unheard : Waiting op base w 0 base w
    waited_on :
        {n : ℕ} {log : List Act} {v : World}
        → Waiting op base w n log v
        → heard_of op v ≡ false
        → ends_by mqtt broker version subscribe_poll (mqtt.poll v).0 ≡ none
        → Waiting op base w (suc n) (heard mqtt broker version (mqtt.poll v).0 log) (mqtt.poll v).1

  -- The broker has a usable address, the connection is open in time, and so is the handshake.
  abbrev pub Reached : World → World → Type 0
  Reached w w' =
      (addr : Ipv4) × (port : ℕ) × (parse_broker broker ≡ some (addr, port))
      × ((mqtt.connect addr port w).0 ≡ answered (ok tt))
      × ((mqtt.handshake (mqtt.connect addr port w).1).0 ≡ answered (ok tt))
      × ((mqtt.handshake (mqtt.connect addr port w).1).1 ≡ w')

  abbrev task : List Act → World → Task World
  task log w = record { log = log; world = w }

  -- An attempt from the world `w` and the log `base` on, over some turns of its steady loop, and how it
  -- ends: the flag is cleared, and it is set only behind a handshake. A new session subscribes and waits
  -- for the SUBACK, a resumed one goes to the steady loop at once.
  pub data Session (turns : ℕ) (w : World) (base : List Act)
      : Ends mqtt broker version → Type 0 where
    unconnected :
        {reason : SessionEnd} {v : World}
        → ((w' : World) → ¬ (Reached w w'))
        → Session turns w base (some (err reason), task (stored false ∷ base) v)
    resumed :
        {w' : World} {e : Ends mqtt broker version}
        → Reached w w'
        → mqtt.connect_event w' ≡ reconnected
        → Serves mqtt broker version turns (task (stored true ∷ stored false ∷ base) w') e
        → Session turns w base e
    refused :
        {w' v : World}
        → Reached w w'
        → mqtt.connect_event w' ≡ connected
        → mqtt.subscribe reset_topic w' ≡ (err tt, v)
        → Session turns w base
            (some (err subscribe_failed), task (stored true ∷ stored false ∷ base) v)
    lost :
        {w' w'' v : World} {op n : ℕ} {log : List Act} {r : Result SessionEnd Unit}
        → Reached w w'
        → mqtt.connect_event w' ≡ connected
        → mqtt.subscribe reset_topic w' ≡ (ok op, w'')
        → Waiting op (stored true ∷ stored false ∷ base) w'' n log v
        → n < 8
        → heard_of op v ≡ false
        → ends_by mqtt broker version subscribe_poll (mqtt.poll v).0 ≡ some r
        → Session turns w base (some r, polled mqtt broker version (task log v))
    subscribed :
        {w' w'' v : World} {op n : ℕ} {log : List Act} {e : Ends mqtt broker version}
        → Reached w w'
        → mqtt.connect_event w' ≡ connected
        → mqtt.subscribe reset_topic w' ≡ (ok op, w'')
        → Waiting op (stored true ∷ stored false ∷ base) w'' n log v
        → (n ≡ 8) ⊎ ((n ≤ 8) × (heard_of op v ≡ true))
        → Serves mqtt broker version turns (task log v) e
        → Session turns w base e

  -- How the wait for the SUBACK ends.
  abbrev pub Waited : ℕ → List Act → World → Ends mqtt broker version → Type 0
  Waited op base w (some r, t) =
      (n : ℕ) × (u : Task World) × Waiting op base w n u.log u.world
      × (n < 8)
      × (heard_of op u.world ≡ false)
      × (ends_by mqtt broker version subscribe_poll (mqtt.poll u.world).0 ≡ some r)
      × (t ≡ polled mqtt broker version u)
  Waited op base w (none, t) =
      (n : ℕ) × Waiting op base w n t.log t.world
      × ((n ≡ 8) ⊎ ((n ≤ 8) × (heard_of op t.world ≡ true)))

  pub ends_by-IsEncoded :
      (a : Timed (Result ClientError (Option Bytes)))
      → IsEncoded mqtt broker version (ends_by mqtt broker version subscribe_poll a)
  ends_by-IsEncoded timed_out e = cc e
  ends_by-IsEncoded (answered (ok x)) e = cc e
  ends_by-IsEncoded (answered (err gone)) e = cc e
  ends_by-IsEncoded (answered (err failed)) e = cc e

  pub subscribing-Waited :
      (op : ℕ) (base : List Act) (w : World) (left n : ℕ) (t : Task World)
      → Waiting op base w n t.log t.world
      → left + n ≡ 8
      → Waited op base w (subscribing mqtt broker version left op t)
  unfolding subscribing
  subscribing-Waited op base w zero n t so_far sum = (n, so_far, inl (omega (arith, sum)))
  subscribing-Waited op base w (suc left) n t so_far sum = elim (Bool-cases (heard_of op t.world)) [
    | inl done ↦ rw (subscribing, done) (n, so_far, inr (omega arith, done))
    | inr waits ↦
        elim (Option-cases (ends_by mqtt broker version subscribe_poll (mqtt.poll t.world).0)) [
          | inr (r, q) ↦ rw (subscribing, waits, q) (n, t, so_far, omega arith, waits, q, refl)
          | inl q ↦
              rw (subscribing, waits, q)
                (subscribing-Waited op base w left (suc n) (polled mqtt broker version t)
                  (waited_on so_far waits q) (omega arith))
        ]
  ]

  -- How an attempt ends, or where it is.
  abbrev pub Attempted : ℕ → World → List Act → Ends mqtt broker version → Type 0
  Attempted turns w base e = Session turns w base e × IsEncoded mqtt broker version e.0

  pub on_connected_err :
      (t : Task World) (x : Unit)
      → (mqtt.subscribe reset_topic t.world).0 ≡ err x
      → on_connected mqtt broker version t
        ≡ (some (err subscribe_failed), record t { world = (mqtt.subscribe reset_topic t.world).1 })
  unfolding on_connected
  on_connected_err t x q = rw (on_connected, q) refl

  pub on_connected_ok :
      (t : Task World) (op : ℕ)
      → (mqtt.subscribe reset_topic t.world).0 ≡ ok op
      → on_connected mqtt broker version t
        ≡ subscribing mqtt broker version 8 op
            (record t { world = (mqtt.subscribe reset_topic t.world).1 })
  unfolding on_connected
  on_connected_ok t op q = rw (on_connected, q) refl

  -- The one address of the broker.
  same_broker :
      (addr addr' : Ipv4) (port port' : ℕ)
      → parse_broker broker ≡ some (addr, port)
      → parse_broker broker ≡ some (addr', port')
      → Path (Ipv4 × ℕ) (addr', port') (addr, port)
  same_broker addr addr' port port' p p' = some_inj (sym p' ∙ p)

  pub no_connect :
      {w : World} (addr : Ipv4) (port : ℕ) (a : Timed (Result Unit Unit))
      → parse_broker broker ≡ some (addr, port)
      → (mqtt.connect addr port w).0 ≡ a
      → a ≢ answered (ok tt)
      → (w' : World) → ¬ (Reached w w')
  no_connect {w} addr port a p q n w' (addr', port', p', opened, shaken, same) = n (
      sym q
      ∙ subst (λ (x : Ipv4 × ℕ). (mqtt.connect x.0 x.1 w).0 ≡ answered (ok tt))
          (same_broker addr addr' port port' p p') opened)

  pub no_shake :
      {w : World} (addr : Ipv4) (port : ℕ) (a : Timed (Result Unit Unit))
      → parse_broker broker ≡ some (addr, port)
      → (mqtt.handshake (mqtt.connect addr port w).1).0 ≡ a
      → a ≢ answered (ok tt)
      → (w' : World) → ¬ (Reached w w')
  no_shake {w} addr port a p q n w' (addr', port', p', opened, shaken, same) = n (
      sym q
      ∙ subst (λ (x : Ipv4 × ℕ). (mqtt.handshake (mqtt.connect x.0 x.1 w).1).0 ≡ answered (ok tt))
          (same_broker addr addr' port port' p p') shaken)
