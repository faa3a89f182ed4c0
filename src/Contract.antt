-- ===== src/Contract.antt =====
-- The GATT contract shared with the beam sensor: core/src/contract.rs.
use garagelight.Prelude.{ℕ, ◌≡◌, ◌↔◌, Option, none, some, arith, not, ◌==◌, if◌then◌else◌}

abbrev pub value_len_bytes : ℕ
value_len_bytes = 1

abbrev fact_intact : ℕ
fact_intact = 0x00

abbrev fact_broken : ℕ
fact_broken = 0x01

abbrev pub leash_timeout_ms : ℕ
leash_timeout_ms = 30_000

pub data BeamFact : Type 0 where
  intact broken : BeamFact

unfoldable pub validate_write : ℕ → ℕ → Option BeamFact
validate_write len value =
    if not (len == value_len_bytes)
    then none
    else if value == fact_intact
    then some intact
    else if value == fact_broken
    then some broken
    else none

-- The byte that stands for a fact on the wire.
abbrev pub wire_value : BeamFact → ℕ
wire_value intact = 0
wire_value broken = 1

-- A write is accepted as a fact exactly when it is one byte long and that byte is the fact's own;
-- every other length and value is refused.
pub validate_write_iff :
    (len value : ℕ) (fact : BeamFact)
    → (validate_write len value ≡ some fact) ↔ ((len ≡ 1) × (value ≡ wire_value fact))
unfolding validate_write
validate_write_iff len value intact = ground arith
validate_write_iff len value _ = ground arith
