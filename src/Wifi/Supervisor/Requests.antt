-- ===== src/Wifi/Supervisor/Requests.antt =====
-- The flag REJOIN_REQUESTED between the telemetry task and the WiFi supervisor: app/src/net.rs.
use garagelight.Prelude.{not, ◌==◌, ℕ, Bool, true, false, List, [], ◌∷◌, if◌then◌else◌}
use garagelight.Wifi.Supervisor.{Answers, Supervisor, turn}

-- The supervisor, and the flag.
pub record Station : Type 0 where
  pub supervisor : Supervisor
  pub flag : Bool

unfoldable pub request_rejoin : Station → Station
request_rejoin s = record s { flag = true }

unfoldable pub rejoin_requested : Station → Bool
rejoin_requested s = s.flag

unfoldable pub clear_rejoin_requested : Station → Station
clear_rejoin_requested s = record s { flag = false }

-- The start of a turn: whether it skips its wait.
unfoldable pub take_request : Station → Bool × Station
unfolding rejoin_requested clear_rejoin_requested
take_request s = if rejoin_requested s then (true, clear_rejoin_requested s) else (false, s)

-- How often the telemetry task requests a rejoin while a turn runs.
abbrev pub requested : ℕ → Station → Station
requested n s = if n == 0 then s else request_rejoin s

-- A turn: what the network answers, and the requests that come while it runs.
unfoldable pub station_turn : Answers × ℕ → Station → Station × Bool
unfolding take_request request_rejoin
station_turn (a, requests) s =
    let (skip_wait, s') = take_request s in
    let (supervisor, resets) = turn s'.supervisor (record a { rejoin_requested = skip_wait }) in
    (requested requests (record s' { supervisor = supervisor }), resets)

-- The loop over some turns, up to a reset: the supervisor behind each, and whether it resets the chip.
unfoldable pub station : List (Answers × ℕ) → Station → List (Supervisor × Bool)
unfolding station_turn
station [] s = []
station (t ∷ later) s =
    let (s', resets) = station_turn t s in
    let rest = station later s' in (s'.supervisor, resets) ∷ (if resets then [] else rest)

-- The same of a supervisor that is told of a request by the answers.
abbrev pub supervised : Supervisor → List Answers → List (Supervisor × Bool)
supervised v [] = []
supervised v (a ∷ later) =
    let rest = supervised (turn v a).0 later in turn v a ∷ (if (turn v a).1 then [] else rest)

-- The answers of the turns, each told that a rejoin is requested exactly when a request came while the
-- turn before it ran.
abbrev pub told : Bool → List (Answers × ℕ) → List Answers
told before [] = []
told before ((a, requests) ∷ later) =
    record a { rejoin_requested = before } ∷ told (not (requests == 0)) later

left : Supervisor → Bool → Station
left v f = record { supervisor = v; flag = f }
