-- ===== src/Wifi/Rejoin.antt =====
-- `RejoinCounter` of core/src/wifi.rs.
use garagelight.Prelude.{ℕ, zero, suc, ◌+◌, ◌-◌, ◌^◌, ◌≤◌, ◌≡◌, ◌↔◌, Bool, true, min, leb, arith}

abbrev u32_max : ℕ
u32_max = 2 ^ 32 - 1

abbrev pub rejoin_after_failures : ℕ
rejoin_after_failures = 3

pub record RejoinCounter : Type 0 where
  pub failures : ℕ

abbrev pub new : RejoinCounter
new = record { failures = 0 }

-- `saturating_add` on a u32.
unfoldable pub record_failure : RejoinCounter → RejoinCounter × Bool
record_failure c =
    let failures = min u32_max (c.failures + 1) in
    (record c { failures = failures }, leb rejoin_after_failures failures)

unfoldable pub reset : RejoinCounter → RejoinCounter
reset c = record c { failures = 0 }

-- The counter after `n` failures in a row.
pub failing : ℕ → RejoinCounter
failing zero = new
failing (suc n) = (record_failure (failing n)).0

failures-failing : (n : ℕ) → (failing n).failures ≡ min u32_max n
unfolding failing record_failure
failures-failing zero = omega arith
failures-failing (suc n) = omega (arith, failures-failing n)

-- The failure after `n` in a row reports that a rejoin is due exactly from the third on.
pub record_failure_iff : (n : ℕ) → ((record_failure (failing n)).1 ≡ true) ↔ (2 ≤ n)
unfolding record_failure
record_failure_iff n =
    (λ e. ground (arith, failures-failing n), λ e. ground (arith, failures-failing n))
