-- ===== src/Telemetry/Task/Steady.antt =====
-- The steady loop of the telemetry task serves its messages and its samples: app/src/telemetry.rs.
use garagelight.Prelude.{
  ℕ, zero, suc, ◌^◌, ◌<◌, ◌≡◌, ◌∙◌, inl, inr, refl, sym, ap, subst, true, false, List, ◌∷◌, Option,
  none, some, Bytes, Bool-cases,
}
use garagelight.Result.{Result, ok, err}
use garagelight.Sensor.{Sample}
use garagelight.Ota.Link.{Timed, answered, timed_out}
use garagelight.Telemetry.Payload.{payload}
use garagelight.Telemetry.Task.{
  mqtt_topic, SessionEnd, ClientError, gone, failed, Mqtt, Act, published, Task, polled, heard,
  dispatch, published_by, report, steady, Ends,
}
use garagelight.Telemetry.Task.Serves.{
  IsMeasured, Sorted, silent, late, encode-wire, task, watched, closed, unpolled, idle, reported,
  closed_late, unpublished, Published, Dispatched, dispatch-some, IsServed,
}

module _ {World : Type 0} (mqtt : Mqtt World) (broker : Bytes) (version : ℕ) where
  module _ (measured : IsMeasured mqtt) (small : version < 2 ^ 32) where
    report-idle :
        (t : Task World)
        → mqtt.sample_pending t.world ≡ false
        → report mqtt broker version t ≡ (none, t)
    unfolding report
    report-idle t e = rw (report, e) refl

    report-pending :
        (t : Task World)
        → mqtt.sample_pending t.world ≡ true
        → report mqtt broker version t ≡ (
          published_by mqtt broker version
              (mqtt.publish mqtt_topic
                (payload (mqtt.wait_sample t.world).0 version)
                (mqtt.wait_sample t.world).1).0,
          task mqtt broker version
              (published mqtt_topic (payload (mqtt.wait_sample t.world).0 version) ∷ t.log)
              (mqtt.publish mqtt_topic
                (payload (mqtt.wait_sample t.world).0 version)
                (mqtt.wait_sample t.world).1).1,
        )
    unfolding report
    report-pending t e =
        rw
          (
            report,
            e,
            encode-wire (mqtt.wait_sample t.world).0 version (measured.wire t.world e) small,
          )
          refl

    pub steady-IsServed :
        (turns : ℕ) (t : Task World)
        → IsServed mqtt broker version turns t (steady mqtt broker version turns t)
    unfolding steady
    steady-IsServed zero t = (watched, λ e. cc e)
    steady-IsServed (suc turns) t = turn (mqtt.poll t.world).0 refl (λ u. steady-IsServed turns u)
      where
        w : World
        w = (mqtt.poll t.world).1

        Rest : Type 0
        Rest =
            (u : Task World)
            → IsServed mqtt broker version turns u (steady mqtt broker version turns u)

        then_steady : Ends mqtt broker version → Ends mqtt broker version
        then_steady r = elim r.0 [
          | some x ↦ (some x, r.1)
          | none ↦ steady mqtt broker version turns r.1
        ]

        next : Ends mqtt broker version
        next =
            report mqtt broker version
              (dispatch mqtt broker version (mqtt.poll t.world).0 (polled mqtt broker version t))

        answered_by :
            (log : List Act) (s : Sample) (answer : Result ClientError Unit) (v : World)
            → Sorted t.log (mqtt.poll t.world).0 log
            → Published mqtt broker version w s answer v
            → Rest
            → IsServed mqtt broker version (suc turns) t (
                then_steady (
                  published_by mqtt broker version answer,
                  task mqtt broker version (published mqtt_topic (payload s version) ∷ log) v,
                ))
        answered_by log s (ok tt) v sorted p rest =
            unfold published_by in
            let (served, good) =
              rest (task mqtt broker version (published mqtt_topic (payload s version) ∷ log) v) in
            (reported sorted p served, good)
        answered_by log s (err gone) v sorted p rest =
            unfold published_by in (closed_late sorted p, λ e. cc e)
        answered_by log s (err failed) v sorted p rest =
            unfold published_by in (unpublished sorted p, λ e. cc e)

        went_on :
            (log : List Act)
            → Sorted t.log (mqtt.poll t.world).0 log
            → next ≡ report mqtt broker version (task mqtt broker version log w)
            → Rest
            → IsServed mqtt broker version (suc turns) t (then_steady next)
        went_on log sorted q rest = elim (Bool-cases (mqtt.sample_pending w)) [
          | inr none_yet ↦
              let (served, good) = rest (task mqtt broker version log w) in
              subst (λ r. IsServed mqtt broker version (suc turns) t (then_steady r))
                (sym (q ∙ report-idle (task mqtt broker version log w) none_yet))
                (idle sorted none_yet served, good)
          | inl pending ↦
              subst (λ r. IsServed mqtt broker version (suc turns) t (then_steady r))
                (sym (q ∙ report-pending (task mqtt broker version log w) pending))
                (answered_by log (mqtt.wait_sample w).0 _ _ sorted
                  (pending, refl, measured.wire w pending, refl) rest)
        ]

        dispatched :
            (a : Timed (Result ClientError (Option Bytes)))
            → (mqtt.poll t.world).0 ≡ a
            → Dispatched mqtt broker version a t.log w
            → Rest
            → IsServed mqtt broker version (suc turns) t (then_steady next)
        dispatched a q (log, sorted, same) rest =
            went_on log (subst (λ z. Sorted t.log z log) (sym q) sorted)
              (ap (report mqtt broker version) (
                ap
                  (λ z.
                    dispatch mqtt broker version z
                      (task mqtt broker version (heard mqtt broker version z t.log) w))
                  q
                ∙ same))
              rest

        lost :
            (e : ClientError)
            → (mqtt.poll t.world).0 ≡ answered (err e)
            → polled mqtt broker version t ≡ task mqtt broker version t.log w
        lost e q = ap (λ z. task mqtt broker version (heard mqtt broker version z t.log) w) q

        turn :
            (a : Timed (Result ClientError (Option Bytes)))
            → (mqtt.poll t.world).0 ≡ a
            → Rest
            → IsServed mqtt broker version (suc turns) t (steady mqtt broker version (suc turns) t)
        turn (answered (err gone)) q rest =
            let on : IsServed mqtt broker version (suc turns) t
                (some (ok tt), polled mqtt broker version t) =
              subst (λ u. IsServed mqtt broker version (suc turns) t (some (ok tt), u))
                (sym (lost gone q)) (closed q, λ e. cc e) in
            rw (steady, q) on
        turn (answered (err failed)) q rest =
            let on : IsServed mqtt broker version (suc turns) t
                (some (err SessionEnd.poll), polled mqtt broker version t) =
              subst
                (λ u. IsServed mqtt broker version (suc turns) t (some (err SessionEnd.poll), u))
                (sym (lost failed q)) (unpolled q, λ e. cc e) in
            rw (steady, q) on
        turn timed_out q rest =
            let on = dispatched timed_out q (unfold dispatch in (t.log, late, refl)) rest in
            rw (steady, q) on
        turn (answered (ok none)) q rest =
            let on =
              dispatched (answered (ok none)) q (unfold dispatch in (t.log, silent, refl)) rest in
            rw (steady, q) on
        turn (answered (ok (some topic))) q rest =
            let on =
              dispatched (answered (ok (some topic))) q
                (dispatch-some mqtt broker version topic t.log w) rest in
            rw (steady, q) on
