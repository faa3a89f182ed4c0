-- ===== src/Telemetry/Task/Reconnect.antt =====
-- The loop of `telemetry_task`, app/src/telemetry.rs: its backoff, and when it asks the WiFi
-- supervisor to join again.
use garagelight.Prelude.{
  ℕ, suc, ◌*◌, ◌^◌, ◌%◌, ◌≡◌, refl, min, Bool, false, List, [], ◌∷◌, none, some, ◌==◌,
  if◌then◌else◌, Bytes, arith,
}
use native.Mathlib.Nat.{pow-suc}
use garagelight.Result.{Result, ok, err}
use garagelight.Wifi.Rejoin.{RejoinCounter, record_failure, reset}
use garagelight.Telemetry.Task.{
  SessionEnd, Mqtt, rejoin_requested, waited, Task, did, connect_and_run,
}

abbrev pub backoff_initial_secs : ℕ
backoff_initial_secs = 1

abbrev pub backoff_max_secs : ℕ
backoff_max_secs = 60

-- The variables of the loop.
pub record Reconnect : Type 0 where
  pub backoff_secs : ℕ
  pub rejoin_counter : RejoinCounter

unfoldable pub start : Reconnect
start = record { backoff_secs = backoff_initial_secs; rejoin_counter = garagelight.Wifi.Rejoin.new }

-- The match on the end of a session: the variables, and whether a rejoin is requested.
unfoldable pub settle : Result SessionEnd Unit → Reconnect → Reconnect × Bool
settle (ok _) p =
    (record { backoff_secs = backoff_initial_secs; rejoin_counter = reset p.rejoin_counter }, false)
settle (err reason) p =
    let (counter, due) = record_failure p.rejoin_counter in
    (record p { rejoin_counter = if due then reset counter else counter }, due)

-- The end of a turn: whether a rejoin is requested, and the seconds of the wait.
unfoldable pub retry : Result SessionEnd Unit → Reconnect → Reconnect × (Bool × ℕ)
unfolding settle
retry r p =
    let (p', due) = settle r p in
    (
      record p' { backoff_secs = min (p'.backoff_secs * 2) backoff_max_secs },
      (due, p'.backoff_secs),
    )

module _ {World : Type 0} (mqtt : Mqtt World) (broker : Bytes) (version : ℕ) where
  -- The task over some attempts, each with the turns that its steady loop is watched for. An attempt
  -- that goes on is the last.
  unfoldable pub telemetry_task : List ℕ → Reconnect → Task World → Reconnect × Task World
  unfolding retry
  telemetry_task [] p t = (p, t)
  telemetry_task (turns ∷ later) p t =
      let (ending, t') =
        connect_and_run mqtt broker version turns
          (record t { world = mqtt.wait_config_up t.world }) in
      elim ending [
        | none ↦ (p, t')
        | some r ↦
            let (p', (due, secs)) = retry r p in
            let told = if due then did mqtt broker version rejoin_requested t' else t' in
            telemetry_task later p' (did mqtt broker version (waited secs) told)
      ]

-- The variables after some sessions, given by their ends, the newest first.
unfoldable pub run : List (Result SessionEnd Unit) → Reconnect
unfolding start
run [] = start
run (r ∷ older) = (retry r (run older)).0

-- The failures since the last session that ended well.
abbrev pub failures : List (Result SessionEnd Unit) → ℕ
failures [] = 0
failures (ok _ ∷ older) = 0
failures (err _ ∷ older) = suc (failures older)

-- How often the wait has doubled.
abbrev pub doublings : List (Result SessionEnd Unit) → ℕ
doublings [] = 0
doublings (ok _ ∷ older) = 1
doublings (err _ ∷ older) = suc (doublings older)

abbrev IsPaced : List (Result SessionEnd Unit) → Reconnect → Type 0
IsPaced ends p =
    (p.backoff_secs ≡ min (2 ^ doublings ends) 60) × (p.rejoin_counter.failures ≡ failures ends % 3)

doubled : (d : ℕ) → min (min (2 ^ d) 60 * 2) 60 ≡ min (2 ^ suc d) 60
doubled d = omega (arith, pow-suc 2 d)

run-IsPaced : (ends : List (Result SessionEnd Unit)) → IsPaced ends (run ends)
unfolding run retry record_failure reset
run-IsPaced [] = unfold start in (refl, refl)
run-IsPaced (ok _ ∷ older) = (refl, refl)
run-IsPaced (err _ ∷ older) =
    let (b, f) = run-IsPaced older in ground (arith, b, f, doubled (doublings older))

-- After any sessions, one more that fails is followed by a wait of the backoff, which doubles from
-- 1 s with every failure up to 60 s, and by the request to join the network again exactly when it is
-- the third, sixth, and so on, in a row; one that ends well is followed by a wait of 1 s.
pub retry_lem :
    (ends : List (Result SessionEnd Unit)) (reason : SessionEnd)
    → ((retry (err reason) (run ends)).1
        ≡ (suc (failures ends) % 3 == 0, min (2 ^ doublings ends) 60))
      × ((retry (ok tt) (run ends)).1 ≡ (false, 1))
unfolding retry record_failure
retry_lem ends reason = (λ i. (due i, (run-IsPaced ends).0 i), refl)
  where
    due : (record_failure (run ends).rejoin_counter).1 ≡ (suc (failures ends) % 3 == 0)
    due = ground (arith, (run-IsPaced ends).1)
