-- ===== src/Ble.antt =====
-- The BLE peripheral: `peripheral_task` of app/src/ble.rs. The BLE stack is outside the sources:
-- what its calls answer is the input. The log holds what the task does, the newest first.
pub mod Posts
pub mod Shown
use garagelight.Prelude.{
  ℕ, Bool, true, false, ◌&&◌, not, List, [], ◌∷◌, Option, none, some, ◌==◌, if◌then◌else◌, Bytes,
  length,
}
use garagelight.Contract.{BeamFact, value_len_bytes, validate_write}
use garagelight.Lamp.{LampEvent, fact, link_down}

-- A write: a request, which expects a response, or a command; its bytes; and whether `accept` and
-- `reject` succeed.
pub record Write : Type 0 where
  pub is_request : Bool
  pub payload : Bytes
  pub accepts : Bool
  pub rejects : Bool

pub data GattEvent : Type 0 where
  disconnected : GattEvent
  write : Write → GattEvent
  other : GattEvent

-- What one turn of the outer loop meets: the call that fails, or a connection with the events on it
-- so far.
pub data Attempt : Type 0 where
  advertise_failed accept_failed gatt_failed : Attempt
  connected : List GattEvent → Attempt

-- Whether the server, the advertisement and the scan response are built.
pub record Setup : Type 0 where
  pub server : Bool
  pub adv : Bool
  pub scan : Bool

pub data Act : Type 0 where
  advertised : Act
  waited : ℕ → Act
  posted : LampEvent → Act
  rejected : Bool → Act
  accepted : Bool → Act
  accepted_unprocessed : Act

-- The flag ADVERTISING, and the log.
pub record Ble : Type 0 where
  pub advertising : Bool
  pub log : List Act

unfoldable pub boot : Ble
boot = record { advertising = false; log = [] }

abbrev pub act : Act → Ble → Ble
act a b = record b { log = a ∷ b.log }

-- `data[0]` is read only where there is one byte.
unfoldable pub parsed : Bytes → Option BeamFact
parsed [] = none
parsed (first ∷ rest) =
    if length (first ∷ rest) == value_len_bytes
    then validate_write (length (first ∷ rest)) first
    else none

-- The write of a command.
unfoldable pub on_command : Option BeamFact → Bool → Ble → Ble
on_command none accepts b = act accepted_unprocessed b
on_command (some f) true b = act (posted (fact f)) (act (accepted true) b)
on_command (some f) false b = act (accepted false) b

unfoldable pub on_write : Write → Ble → Ble
unfolding parsed on_command
on_write w b =
    if w.is_request then act (rejected w.rejects) b else on_command (parsed w.payload) w.accepts b

-- The loop of a connection over the events so far: whether it has ended.
unfoldable pub serve : List GattEvent → Ble → Bool × Ble
unfolding on_write
serve [] b = (false, b)
serve (disconnected ∷ _) b = (true, act (posted link_down) b)
serve (write w ∷ later) b = serve later (on_write w b)
serve (other ∷ later) b = serve later b

abbrev pub start_advertising : Ble → Ble
start_advertising b = act advertised (record b { advertising = true })

-- The outer loop; an attempt behind a connection that is still open does not happen.
unfoldable pub attempts : List Attempt → Ble → Ble
unfolding serve
attempts [] b = b
attempts (advertise_failed ∷ later) b = attempts later (act (waited 500) b)
attempts (accept_failed ∷ later) b = attempts later (act (posted link_down) (start_advertising b))
attempts (gatt_failed ∷ later) b = attempts later (act (posted link_down) (start_advertising b))
attempts (connected events ∷ later) b =
    let (ended, b') = serve events (start_advertising b) in
    let rest = attempts later b' in if ended then rest else b'

unfoldable pub peripheral_task : Setup → List Attempt → Ble
unfolding boot attempts
peripheral_task s later = if s.server && (s.adv && s.scan) then attempts later boot else boot
