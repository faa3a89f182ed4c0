-- ===== src/Flash.antt =====
-- The flash: the partition table of core/src/layout.rs, and in the child the adapter of
-- app/src/update.rs.
pub mod Dfu
pub mod Harness
use garagelight.Prelude.{
  ℕ, ◌+◌, ◌-◌, ◌*◌, ◌/◌, ◌%◌, ◌≤◌, ◌<◌, ◌≡◌, ◌⊎◌, inl, inr, refl, Bool, true, false, ◌&&◌,
  if◌then◌else◌, arith, leb, ltb,
}
use garagelight.Ota.Session.{active_bytes}

-- A region, as its first address and its size.
pub record Region : Type 0 where
  pub base : ℕ
  pub bytes : ℕ

abbrev pub flash : Region
flash = record { base = 0x1000_0000; bytes = 2 * 1024 * 1024 }

abbrev pub bootloader : Region
bootloader = record { base = 0x1000_0000; bytes = 24 * 1024 }

abbrev pub active : Region
active = record { base = 0x1000_6000; bytes = active_bytes }

abbrev pub dfu : Region
dfu = record { base = 0x100C_9000; bytes = 784 * 1024 }

abbrev pub state : Region
state = record { base = 0x1018_D000; bytes = 4 * 1024 }

abbrev pub spare : Region
spare = record { base = 0x1018_E000; bytes = flash.base + flash.bytes - 0x1018_E000 }

abbrev pub one_at : ℕ → Region → ℕ
one_at a r = if leb r.base a && ltb a (r.base + r.bytes) then 1 else 0

-- The number of the partitions that hold an address.
abbrev pub count_at : ℕ → ℕ
count_at a = one_at a bootloader + one_at a active + one_at a dfu + one_at a state + one_at a spare

-- The partitions tile the flash: an address of the flash lies in exactly one of them, and no other
-- address in any.
pub count_at-flash : (a : ℕ) → count_at a ≡ one_at a flash
count_at-flash a = ground arith
