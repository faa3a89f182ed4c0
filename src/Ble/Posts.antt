-- ===== src/Ble/Posts.antt =====
-- What the BLE task posts to the lamp, for app/src/ble.rs.
use garagelight.Prelude.{
  Option-cases, ◌⊎◌, ◌≡◌, refl, true, false, List, [], ◌∷◌, some, arith, Bytes, Bool-cases, inl,
  inr,
}
use garagelight.Contract.{BeamFact, intact, broken, validate_write, wire_value}
use garagelight.Lamp.{LampEvent, fact}
use garagelight.Ble.{
  accepted, rejected, waited, Write, GattEvent, disconnected, write, other, Attempt,
  advertise_failed, accept_failed, gatt_failed, connected, Act, posted, advertised, waited,
  rejected, accepted, accepted_unprocessed, Ble, parsed, on_command, on_write,
}

-- The events that a log posts.
abbrev pub posts : List Act → List LampEvent
posts [] = []
posts (posted e ∷ older) = e ∷ posts older
posts (advertised ∷ older) = posts older
posts (waited ms ∷ older) = posts older
posts (rejected ok ∷ older) = posts older
posts (accepted ok ∷ older) = posts older
posts (accepted_unprocessed ∷ older) = posts older

-- A write that delivers the fact `f`: a command, of the one byte of `f`, that the stack accepts.
pub record Delivers (f : BeamFact) (w : Write) : Type 0 where
  pub command : w.is_request ≡ false
  pub byte : w.payload ≡ wire_value f ∷ []
  pub applied : w.accepts ≡ true

-- No write among the events delivers a fact.
abbrev pub Silent : List GattEvent → Type 0
Silent [] = Unit
Silent (write w ∷ later) = ((f : BeamFact) → ¬ Delivers f w) × Silent later
Silent (disconnected ∷ later) = Silent later
Silent (other ∷ later) = Silent later

-- The newest fact that the events deliver is `f`.
abbrev pub Last : BeamFact → List GattEvent → Type 0
Last f [] = ⊥
Last f (write w ∷ later) = (Delivers f w × Silent later) ⊎ Last f later
Last f (disconnected ∷ later) = Last f later
Last f (other ∷ later) = Last f later

abbrev pub IsOpen : List GattEvent → Type 0
IsOpen [] = Unit
IsOpen (disconnected ∷ later) = ⊥
IsOpen (write w ∷ later) = IsOpen later
IsOpen (other ∷ later) = IsOpen later

-- The connection that is open after some attempts, with the events on it.
abbrev pub IsLinked : List GattEvent → List Attempt → Type 0
IsLinked events [] = ⊥
IsLinked events (connected es ∷ later) =
    (IsOpen es × (es ≡ events)) ⊎ (¬ IsOpen es × IsLinked events later)
IsLinked events (advertise_failed ∷ later) = IsLinked events later
IsLinked events (accept_failed ∷ later) = IsLinked events later
IsLinked events (gatt_failed ∷ later) = IsLinked events later

parsed-some : (bs : Bytes) (f : BeamFact) → parsed bs ≡ some f → bs ≡ wire_value f ∷ []
unfolding parsed validate_write
parsed-some [] f e = cc
parsed-some (c ∷ d ∷ bs) f e = ground arith
parsed-some (c ∷ []) intact e = ground arith
parsed-some (c ∷ []) broken e = ground arith

parsed-wire : (f : BeamFact) → parsed (wire_value f ∷ []) ≡ some f
unfolding parsed validate_write
parsed-wire intact = refl
parsed-wire broken = refl

-- What a write does to the posts: it delivers a fact, which is posted, or it posts nothing.
pub on_write-posts :
    (w : Write) (b : Ble)
    → ((f : BeamFact) × Delivers f w × (posts (on_write w b).log ≡ fact f ∷ posts b.log))
      ⊎ (((f : BeamFact) → ¬ Delivers f w) × (posts (on_write w b).log ≡ posts b.log))
unfolding on_write on_command
on_write-posts w b = elim (Bool-cases w.is_request) [
  | inl req ↦ inr ((λ f d. cc (d.command, req)), ground (arith, req))
  | inr cmd ↦ elim (Option-cases (parsed w.payload)) [
    | inl e ↦ inr ((λ f d. cc (d.byte, e, parsed-wire f)), ground (arith, cmd, e))
    | inr (f, e) ↦ elim (Bool-cases w.accepts) [
      | inl fine ↦ inl (
        f,
        record { command = cmd; byte = parsed-some w.payload f e; applied = fine },
        ground (arith, cmd, e, fine),
      )
      | inr bad ↦ inr ((λ g d. cc (d.applied, bad)), ground (arith, cmd, e, bad))
    ]
  ]
]
