-- ===== src/Telemetry/Task/Life.antt =====
-- The life of the telemetry task: attempt after attempt, for app/src/telemetry.rs.
use garagelight.Prelude.{
  suc, ℕ, ◌^◌, ◌%◌, ◌<◌, ◌≡◌, min, refl, subst, Bool, false, List, [], ◌∷◌, none, some, ◌==◌,
  if◌then◌else◌, Bytes,
}
use garagelight.Result.{Result, ok, err}
use garagelight.Telemetry.Task.{
  SessionEnd, encode_failed, Mqtt, rejoin_requested, waited, Task, did, connect_and_run, Ends,
}
use garagelight.Telemetry.Task.Serves.{IsMeasured}
use garagelight.Telemetry.Task.Whole.{Ran, connect_and_run_lem}
use garagelight.Telemetry.Task.Reconnect.{
  Reconnect, start, retry, run, telemetry_task, failures, doublings, retry_lem,
}

-- Whether a rejoin is due behind a session, and the seconds of the wait, by the ends of the sessions
-- before it.
abbrev pub due : Result SessionEnd Unit → List (Result SessionEnd Unit) → Bool
due (ok _) older = false
due (err _) older = suc (failures older) % 3 == 0

abbrev pub pause : Result SessionEnd Unit → List (Result SessionEnd Unit) → ℕ
pause (ok _) older = 1
pause (err _) older = min (2 ^ doublings older) 60

retried :
    (r : Result SessionEnd Unit) (ends : List (Result SessionEnd Unit))
    → (retry r (run ends)).1 ≡ (due r ends, pause r ends)
retried (err reason) ends = (retry_lem ends reason).0
retried (ok x) ends = (retry_lem ends encode_failed).1

module _ {World : Type 0} (mqtt : Mqtt World) (broker : Bytes) (version : ℕ) where
  -- What a turn does behind a session: the rejoin, if one is due, and the wait.
  abbrev pub paused : Bool × ℕ → Task World → Task World
  paused (b, secs) u =
      did mqtt broker version (waited secs)
        (if b then did mqtt broker version rejoin_requested u else u)

  -- The task when an attempt starts: the network has an address.
  abbrev pub online : Task World → Task World
  online t = record t { world = mqtt.wait_config_up t.world }

  module _ (measured : IsMeasured mqtt) (small : version < 2 ^ 32) where
    abbrev RanFrom : ℕ → Task World → Ends mqtt broker version → Type 0
    RanFrom turns t e = Ran mqtt broker version measured small turns (online t).world t.log e

    -- The life of a task from `t` to `final`, with the ends of the sessions before, the newest first.
    -- Each attempt is the code's own, over the turns given, and what follows it is told by the ends.
    pub data Life : List ℕ → List (Result SessionEnd Unit) → Task World → Task World → Type 0 where
      over : {ends : List (Result SessionEnd Unit)} {t : Task World} → Life [] ends t t
      goes_on :
          {turns : ℕ} {later : List ℕ} {ends : List (Result SessionEnd Unit)} {t u : Task World}
          → connect_and_run mqtt broker version turns (online t) ≡ (none, u)
          → RanFrom turns t (none, u)
          → Life (turns ∷ later) ends t u
      ended :
          {turns : ℕ} {later : List ℕ} {ends : List (Result SessionEnd Unit)}
          {t u final : Task World} {r : Result SessionEnd Unit}
          → connect_and_run mqtt broker version turns (online t) ≡ (some r, u)
          → RanFrom turns t (some r, u)
          → Life later (r ∷ ends) (paused (due r ends, pause r ends) u) final
          → Life (turns ∷ later) ends t final

    Life-from :
        (attempts : List ℕ) (ends : List (Result SessionEnd Unit)) (t : Task World)
        → Life attempts ends t (telemetry_task mqtt broker version attempts (run ends) t).1
    unfolding telemetry_task
    Life-from [] ends t = over
    Life-from (turns ∷ later) ends t =
        attempted _ refl (connect_and_run_lem mqtt broker version measured small turns (online t))
          (λ r u. Life-from later (r ∷ ends) u)
      where
        then_later : Ends mqtt broker version → Reconnect × Task World
        then_later e = elim e.0 [
          | none ↦ (run ends, e.1)
          | some r ↦
              telemetry_task mqtt broker version later (retry r (run ends)).0
                (paused (retry r (run ends)).1 e.1)
        ]

        attempted :
            (e : Ends mqtt broker version)
            → connect_and_run mqtt broker version turns (online t) ≡ e
            → RanFrom turns t e
            → ((r : Result SessionEnd Unit) (u : Task World)
                → Life later
                    (r ∷ ends)
                    u
                    (telemetry_task mqtt broker version later (run (r ∷ ends)) u).1)
            → Life (turns ∷ later) ends t (then_later e).1
        attempted (none, u) q ran next = goes_on q ran
        attempted (some r, u) q ran next =
            unfold run in
            ended q ran (
              subst
                (λ (p : Bool × ℕ).
                  Life later (r ∷ ends) (paused p u)
                    (telemetry_task mqtt broker version later (retry r (run ends)).0
                      (paused (retry r (run ends)).1 u)).1)
                (retried r ends) (next r (paused (retry r (run ends)).1 u)))

    -- Whatever the network, the broker and the sensors do: the task makes its attempts one after the
    -- other, until one goes on, each from where the last one left, and with the flag and the messages
    -- as they should be. Behind a session that ended well it waits 1 s. Behind a failure it waits a
    -- backoff that starts at 1 s and doubles up to 60 s, and it asks for a rejoin of the network
    -- exactly at every third failure in a row.
    pub telemetry_task_lem :
        (attempts : List ℕ) (t : Task World)
        → Life attempts [] t (telemetry_task mqtt broker version attempts start t).1
    telemetry_task_lem attempts t = unfold run in Life-from attempts [] t
