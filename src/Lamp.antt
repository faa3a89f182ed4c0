-- ===== src/Lamp.antt =====
-- The pure lamp machine: core/src/lamp.rs.
pub mod Pattern
pub mod Leash
pub mod Pin
use garagelight.Prelude.{
  ℕ, ◌+◌, ◌-◌, ◌%◌, Bool, true, false, not, ◌&&◌, ◌||◌, List, [], ◌∷◌, ltb, leb, if◌then◌else◌,
}
use garagelight.Contract.{BeamFact, intact, broken, leash_timeout_ms}

abbrev fault_cycle_ms : ℕ
fault_cycle_ms = 2000

abbrev fault_on1_ms : ℕ
fault_on1_ms = 1500

abbrev fault_off1_ms : ℕ
fault_off1_ms = 150

abbrev fault_on2_ms : ℕ
fault_on2_ms = 200

-- Lit or dark at `elapsed_ms` into the fault pattern.
unfoldable pub fault_level : ℕ → Bool
fault_level elapsed_ms =
    let t = elapsed_ms % fault_cycle_ms in
    let first_dark_end = fault_on1_ms + fault_off1_ms in
    let second_lit_end = first_dark_end + fault_on2_ms in
    ltb t fault_on1_ms || leb first_dark_end t && ltb t second_lit_end

pub data LampEvent : Type 0 where
  fact : BeamFact → LampEvent
  link_down : LampEvent
  tick : LampEvent

pub record LampMachine : Type 0 where
  pub fault : Bool
  pub fact : BeamFact
  pub live : Bool
  pub last_write_ms : ℕ
  pub fault_since_ms : ℕ

unfoldable pub new : LampMachine
new = record { fault = true; fact = intact; live = false; last_write_ms = 0; fault_since_ms = 0 }

unfoldable pub on_fact : LampMachine → BeamFact → ℕ → LampMachine
on_fact m f now_ms = record m { fact = f; fault = false; live = true; last_write_ms = now_ms }

unfoldable pub on_link_down : LampMachine → ℕ → LampMachine
on_link_down m now_ms = record m { live = false; fault = true; fault_since_ms = now_ms }

-- `saturating_sub` is the subtraction of ℕ.
unfoldable pub on_tick : LampMachine → ℕ → LampMachine
on_tick m now_ms =
    if not m.fault && m.live && leb leash_timeout_ms (now_ms - m.last_write_ms)
    then record m { fault = true; fault_since_ms = now_ms }
    else m

abbrev pub is_broken : BeamFact → Bool
is_broken broken = true
is_broken intact = false

unfoldable pub level : LampMachine → ℕ → Bool
level m now_ms = if m.fault then fault_level (now_ms - m.fault_since_ms) else is_broken m.fact

unfoldable pub apply : LampMachine → LampEvent → ℕ → LampMachine
unfolding on_fact on_link_down on_tick
apply m (fact f) now_ms = on_fact m f now_ms
apply m link_down now_ms = on_link_down m now_ms
apply m tick now_ms = on_tick m now_ms
