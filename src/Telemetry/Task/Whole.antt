-- ===== src/Telemetry/Task/Whole.antt =====
-- A whole attempt of the telemetry task, from the flag CONNECTED cleared to the flag cleared again:
-- app/src/telemetry.rs.
use garagelight.Prelude.{
  ap, sym, ℕ, ◌^◌, ◌<◌, ◌≡◌, ◌≢◌, ◌∙◌, refl, subst, true, false, List, ◌∷◌, Option, none, some,
  Bytes,
}
use garagelight.Result.{Result, ok, err}
use garagelight.Ota.Link.{Timed, answered, timed_out}
use garagelight.Telemetry.{parse_broker, Ipv4, reset_topic}
use garagelight.Telemetry.Task.{
  connect_and_run, run_session, ConnectEvent, connected, reconnected, encode_failed, Mqtt, Act,
  stored, Task, did, subscribing, on_connected, steady, drive, Ends,
}
use garagelight.Telemetry.Task.Steady.{steady-IsServed}
use garagelight.Telemetry.Task.Serves.{IsMeasured, IsServed}
use garagelight.Telemetry.Task.Session.{
  Session, resumed, refused, lost, subscribed, unconnected, unheard, Reached, Waited, Attempted,
  ends_by-IsEncoded, subscribing-Waited, on_connected_err, on_connected_ok, no_connect, no_shake,
}

module _ {World : Type 0} (mqtt : Mqtt World) (broker : Bytes) (version : ℕ) where
  module _ (measured : IsMeasured mqtt) (small : version < 2 ^ 32) where
    served :
        (turns : ℕ) (t : Task World)
        → IsServed mqtt broker version turns t (steady mqtt broker version turns t)
    served turns t = steady-IsServed mqtt broker version measured small turns t

    drive-Attempted :
        (turns : ℕ) (w w' : World) (base : List Act) (t : Task World)
        → Reached mqtt broker version w w'
        → t ≡ record { log = stored false ∷ base; world = w' }
        → Attempted mqtt broker version turns w base (drive mqtt broker version turns t)
    unfolding drive
    drive-Attempted turns w w' base t reached is =
        subst (λ u. Attempted mqtt broker version turns w base (drive mqtt broker version turns u))
          (sym is) (by_event (mqtt.connect_event w') refl)
      where
        start : Task World
        start = record { log = stored false ∷ base; world = w' }

        began : Task World
        began = did mqtt broker version (stored true) start

        v : World
        v = (mqtt.subscribe reset_topic w').1

        after : Ends mqtt broker version → Ends mqtt broker version
        after r = elim r.0 [ some x ↦ (some x, r.1) | none ↦ steady mqtt broker version turns r.1 ]

        then_steady :
            (op : ℕ) (r : Ends mqtt broker version)
            → mqtt.connect_event w' ≡ connected
            → mqtt.subscribe reset_topic w' ≡ (ok op, v)
            → Waited mqtt broker version op began.log v r
            → Attempted mqtt broker version turns w base (after r)
        then_steady op (none, u) q a (n, waiting, over) =
            let (s, good) = served turns u in (subscribed reached q a waiting over s, good)
        then_steady op (some x, t') q a (n, u, waiting, less, waits, r, same) = (
          subst (λ z. Session mqtt broker version turns w base (some x, z)) (sym same)
              (lost reached q a waiting less waits r),
          λ e. ends_by-IsEncoded mqtt broker version (mqtt.poll u.world).0 (r ∙ e),
        )

        behind :
            {r : Ends mqtt broker version}
            → mqtt.connect_event w' ≡ connected
            → on_connected mqtt broker version began ≡ r
            → Attempted mqtt broker version turns w base (after r)
            → Attempted mqtt broker version turns w base (drive mqtt broker version turns start)
        behind q e a =
            rw (drive, q)
              (subst (λ r. Attempted mqtt broker version turns w base (after r)) (sym e) a)

        by_answer :
            (a : Result Unit ℕ)
            → mqtt.connect_event w' ≡ connected
            → (mqtt.subscribe reset_topic w').0 ≡ a
            → Attempted mqtt broker version turns w base (drive mqtt broker version turns start)
        by_answer (err x) q a =
            behind q (on_connected_err mqtt broker version began x a)
              (refused reached q (ap (λ z. (z, v)) a), λ e. cc e)
        by_answer (ok op) q a = behind q (on_connected_ok mqtt broker version began op a) (
            then_steady op (subscribing mqtt broker version 8 op (record began { world = v })) q
              (ap (λ z. (z, v)) a)
              (subscribing-Waited mqtt broker version op began.log v 8 0
                (record began { world = v }) unheard refl))

        by_event :
            (e : ConnectEvent)
            → mqtt.connect_event w' ≡ e
            → Attempted mqtt broker version turns w base (drive mqtt broker version turns start)
        by_event reconnected q =
            let (s, good) = served turns began in rw (drive, q) (resumed reached q s, good)
        by_event connected q = by_answer _ q refl

    run_session-Attempted :
        (turns : ℕ) (w : World) (base : List Act)
        → Attempted mqtt broker version turns w base (
            run_session mqtt broker version turns (record { log = stored false ∷ base; world = w }))
    unfolding run_session
    run_session-Attempted turns w base = by_broker (parse_broker broker) refl
      where
        t : Task World
        t = record { log = stored false ∷ base; world = w }

        Done : Type 0
        Done = Attempted mqtt broker version turns w base (run_session mqtt broker version turns t)

        by_shake :
            (addr : Ipv4) (port : ℕ) (a : Timed (Result Unit Unit))
            → parse_broker broker ≡ some (addr, port)
            → (mqtt.connect addr port w).0 ≡ answered (ok tt)
            → (mqtt.handshake (mqtt.connect addr port w).1).0 ≡ a
            → Done
        by_shake addr port timed_out p q r =
            rw (run_session, p, q, r)
              (
                unconnected (λ w' reached.
                    no_shake mqtt broker version addr port timed_out p r (λ e. cc e) w' reached),
                λ e. cc e,
              )
        by_shake addr port (answered (err x)) p q r =
            rw (run_session, p, q, r)
              (
                unconnected (λ w' reached.
                    no_shake mqtt broker version addr port (answered (err x)) p r (λ e. cc e) w'
                      reached),
                λ e. cc e,
              )
        by_shake addr port (answered (ok tt)) p q r =
            rw (run_session, p, q, r)
              (drive-Attempted turns w (mqtt.handshake (mqtt.connect addr port w).1).1 base _
                (addr, port, p, q, r, refl) refl)

        by_connect :
            (addr : Ipv4) (port : ℕ) (a : Timed (Result Unit Unit))
            → parse_broker broker ≡ some (addr, port)
            → (mqtt.connect addr port w).0 ≡ a
            → Done
        by_connect addr port timed_out p q =
            rw (run_session, p, q)
              (
                unconnected (λ w' reached.
                    no_connect mqtt broker version addr port timed_out p q (λ e. cc e) w' reached),
                λ e. cc e,
              )
        by_connect addr port (answered (err x)) p q =
            rw (run_session, p, q)
              (
                unconnected (λ w' reached.
                    no_connect mqtt broker version addr port (answered (err x)) p q (λ e. cc e) w'
                      reached),
                λ e. cc e,
              )
        by_connect addr port (answered (ok tt)) p q = by_shake addr port _ p q refl

        by_broker : (b : Option (Ipv4 × ℕ)) → parse_broker broker ≡ b → Done
        by_broker none p =
            rw (run_session, p)
              (unconnected (λ w' (addr, port, p', opened, shaken, same). cc (p, p')), λ e. cc e)
        by_broker (some (addr, port)) p = by_connect addr port _ p refl

    -- What an attempt from the world `w` and the log `base` on leaves.
    abbrev pub Ran : ℕ → World → List Act → Ends mqtt broker version → Type 0
    Ran turns w base (none, t) = Session mqtt broker version turns w base (none, t)
    Ran turns w base (some r, t) =
        (r ≢ err encode_failed)
        × ((u : Task World) × Session mqtt broker version turns w base (some r, u)
            × (t ≡ did mqtt broker version (stored false) u))

    -- However far an attempt gets, it clears the flag CONNECTED first, and sets it if and only if the
    -- address of the broker is usable, the connection opens and the handshake is done, each in time.
    -- Then a resumed session goes to the steady loop at once. A new one subscribes to the reset topic
    -- and goes to it only behind 8 polls or once the client has heard of the subscription, and it polls
    -- only while the client has not. A turn of the steady loop polls once, and ends the session if that
    -- fails; a message on the reset topic requests a check, and nothing else does; a sample that is
    -- pending is published as JSON text on the topic of the temperature, and nothing else is. An
    -- attempt that ends clears the flag again, and it never ends because a sample has no payload.
    pub connect_and_run_lem :
        (turns : ℕ) (t : Task World)
        → Ran turns t.world t.log (connect_and_run mqtt broker version turns t)
    unfolding connect_and_run
    connect_and_run_lem turns t = cleared _ (run_session-Attempted turns t.world t.log)
      where
        cleared :
            (r : Ends mqtt broker version)
            → Attempted mqtt broker version turns t.world t.log r
            → Ran turns t.world t.log (elim r.0 [
              | none ↦ (none, r.1)
              | some x ↦ (some x, did mqtt broker version (stored false) r.1)
            ])
        cleared (none, u) a = a.0
        cleared (some x, u) a = ((λ e. a.1 (ap some e)), (u, a.0, refl))
