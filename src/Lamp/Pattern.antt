-- ===== src/Lamp/Pattern.antt =====
-- What an observer sees of the fault pattern of core/src/lamp.rs.
use garagelight.Prelude.{ℕ, ◌+◌, ◌*◌, ◌≤◌, ◌<◌, ◌≡◌, ◌↔◌, ◌⊎◌, true, arith}
use garagelight.Lamp.{fault_level}

-- The lamp is lit in the windows [0, 1500) and [1650, 1850) of every cycle of 2000 ms, and dark in
-- the rest, however many whole cycles have gone by.
pub fault_level_iff :
    (cycles t : ℕ)
    → t < 2000
    → (fault_level (cycles * 2000 + t) ≡ true) ↔ ((t < 1500) ⊎ ((1650 ≤ t) × (t < 1850)))
unfolding fault_level
fault_level_iff cycles t h = (λ e. ground arith, λ e. ground arith)
