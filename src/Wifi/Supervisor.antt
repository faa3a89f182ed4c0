-- ===== src/Wifi/Supervisor.antt =====
-- The WiFi supervisor: `supervisor_task` of app/src/net.rs. The control channel and the network
-- stack are outside the sources: `Answers` is what their calls answer in one turn of the loop.
pub mod Outage
pub mod Requests
use garagelight.Prelude.{
  ℕ, zero, suc, ◌+◌, ◌*◌, min, Bool, true, false, ◌&&◌, List, [], ◌∷◌, if◌then◌else◌,
}
use garagelight.Wifi.Watchdog.{NoIpWatchdog, secs, record_elapsed, is_reset_due, reset}

abbrev pub dhcp_retry_attempts : ℕ
dhcp_retry_attempts = 3

abbrev pub backoff_initial_secs : ℕ
backoff_initial_secs = 30

abbrev pub backoff_max_secs : ℕ
backoff_max_secs = 120

pub data Join : Type 0 where
  joined join_failed join_timeout : Join

-- `dhcp n` is whether wait number `n` for an address of this turn is answered in time, and
-- `has_config` whether the stack then has an address.
pub record Answers : Type 0 where
  pub rejoin_requested : Bool
  pub join : Join
  pub dhcp : ℕ → Bool
  pub has_config : Bool

-- The variables of the task, and what it stored in `ASSOCIATED`, the newest first.
pub record Supervisor : Type 0 where
  pub backoff_secs : ℕ
  pub no_ip : NoIpWatchdog
  pub associated : List Bool

unfoldable pub start : Supervisor
start = record {
  backoff_secs = backoff_initial_secs;
  no_ip = garagelight.Wifi.Watchdog.new;
  associated = [];
}

abbrev pub is_joined : Join → Bool
is_joined joined = true
is_joined _ = false

-- The loop that issues DHCP again.
unfoldable pub dhcp_retry : ℕ → ℕ → (ℕ → Bool) → Bool
dhcp_retry zero n dhcp = false
dhcp_retry (suc attempts) n dhcp =
    let later = dhcp_retry attempts (n + 1) dhcp in if dhcp n then true else later

unfoldable pub dhcp_up : Answers → Bool
unfolding dhcp_retry
dhcp_up a = if a.dhcp 0 then true else dhcp_retry dhcp_retry_attempts 1 a.dhcp

abbrev pub store : Bool → Supervisor → Supervisor
store b s = record s { associated = b ∷ s.associated }

-- The part under `if joined`.
unfoldable pub after_join : Supervisor → Answers → Supervisor
after_join s a =
    if dhcp_up a
    then store false (if a.has_config then store true (record s { no_ip = reset s.no_ip }) else s)
    else s

unfoldable pub joining : Supervisor → Answers → Supervisor
unfolding after_join
joining s a =
    if is_joined a.join
    then after_join (record (store false s) { backoff_secs = backoff_initial_secs }) a
    else store false s

unfoldable pub pausing : Supervisor → Answers → Supervisor
pausing s a =
    if a.rejoin_requested
    then s
    else record s { no_ip = record_elapsed s.no_ip (secs s.backoff_secs) }

-- The end of a turn: the state, and whether the chip is reset.
unfoldable pub ending : Supervisor → Supervisor × Bool
ending s =
    if is_reset_due s.no_ip
    then (record s { no_ip = reset s.no_ip }, true)
    else (record s { backoff_secs = min (s.backoff_secs * 2) backoff_max_secs }, false)

-- One turn of the loop.
unfoldable pub turn : Supervisor → Answers → Supervisor × Bool
unfolding joining pausing ending
turn s a = ending (pausing (joining s a) a)

-- The loop over some turns: whether one of them resets the chip.
unfoldable pub supervise : Supervisor → List Answers → Bool
unfolding turn
supervise s [] = false
supervise s (a ∷ rest) =
    let (s', resets) = turn s a in let later = supervise s' rest in if resets then true else later
