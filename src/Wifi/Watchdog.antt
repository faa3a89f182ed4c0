-- ===== src/Wifi/Watchdog.antt =====
-- `NoIpWatchdog` of core/src/wifi.rs. A `core::time::Duration` is its number of nanoseconds.
use garagelight.Prelude.{
  ℕ, ◌+◌, ◌-◌, ◌*◌, ◌^◌, ◌≤◌, ◌≡◌, ◌↔◌, Bool, true, List, [], ◌∷◌, min, leb, arith,
}

abbrev pub secs : ℕ → ℕ
secs n = n * 1_000_000_000

-- The longest duration: `u64::MAX` seconds and 999999999 nanoseconds.
abbrev duration_max : ℕ
duration_max = 2 ^ 64 * 1_000_000_000 - 1

-- Duration::saturating_add
abbrev saturating_add : ℕ → ℕ → ℕ
saturating_add a b = min duration_max (a + b)

abbrev pub no_ip_reset : ℕ
no_ip_reset = secs 180

pub record NoIpWatchdog : Type 0 where
  pub elapsed : ℕ

abbrev pub new : NoIpWatchdog
new = record { elapsed = 0 }

-- The source's `record`.
unfoldable pub record_elapsed : NoIpWatchdog → ℕ → NoIpWatchdog
record_elapsed w elapsed = record w { elapsed = saturating_add w.elapsed elapsed }

unfoldable pub is_reset_due : NoIpWatchdog → Bool
is_reset_due w = leb no_ip_reset w.elapsed

unfoldable pub reset : NoIpWatchdog → NoIpWatchdog
reset w = record w { elapsed = 0 }

-- What a caller may do with a watchdog.
pub data Op : Type 0 where
  recorded : ℕ → Op
  restarted : Op

-- The watchdog after the calls, the newest first.
pub run : List Op → NoIpWatchdog
run [] = new
run (recorded d ∷ older) = record_elapsed (run older) d
run (restarted ∷ older) = reset (run older)

-- The time recorded since the newest reset, with no upper bound.
abbrev pub unleased : List Op → ℕ
unleased [] = 0
unleased (recorded d ∷ older) = unleased older + d
unleased (restarted ∷ older) = 0

elapsed-run : (ops : List Op) → (run ops).elapsed ≡ min duration_max (unleased ops)
unfolding run record_elapsed reset
elapsed-run [] = omega arith
elapsed-run (recorded d ∷ older) = omega (arith, elapsed-run older)
elapsed-run (restarted ∷ older) = omega arith

-- A reset is due exactly when 180 s or more were recorded since the last reset of the watchdog,
-- for every sequence of calls: the saturation of the sum never hides that.
pub is_reset_due_iff :
    (ops : List Op) → (is_reset_due (run ops) ≡ true) ↔ (180 * 1_000_000_000 ≤ unleased ops)
unfolding is_reset_due
is_reset_due_iff ops = (λ e. ground (arith, elapsed-run ops), λ e. ground (arith, elapsed-run ops))
