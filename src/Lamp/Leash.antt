-- ===== src/Lamp/Leash.antt =====
-- The write leash of core/src/lamp.rs, over whole histories of events. A history lists the events
-- with the time of each, the newest first.
use garagelight.Prelude.{
  ℕ, ◌-◌, ◌<◌, ◌≡◌, ◌↔◌, ◌⊎◌, inl, inr, refl, true, false, List, [], ◌∷◌, Bool-cases, arith,
}
use garagelight.Contract.{BeamFact}
use garagelight.Lamp.{
  LampEvent, fact, link_down, tick, LampMachine, new, apply, level, fault_level, is_broken,
}

abbrev pub History : Type 0
History = List (LampEvent × ℕ)

-- The machine after a history, from its boot state.
unfoldable pub run : History → LampMachine
unfolding new
run [] = new
run ((e, now) ∷ older) = apply (run older) e now

-- The fact `f`, written at `t`, is the one in force: nothing but ticks came after it, and none of
-- them found it 30 s old.
abbrev pub Holds : BeamFact → ℕ → History → Type 0
Holds f t [] = ⊥
Holds f t ((fact g, now) ∷ older) = (f ≡ g) × (t ≡ now)
Holds f t ((link_down, now) ∷ older) = ⊥
Holds f t ((tick, now) ∷ older) = (now - t < 30_000) × Holds f t older

-- A machine that shows a fact is live.
live_unless_fault : (h : History) → ((run h).fault ≡ true) ⊎ ((run h).live ≡ true)
unfolding run apply
live_unless_fault [] = inl refl
live_unless_fault ((e, now) ∷ older) = ground (arith, live_unless_fault older)

abbrev Shows : BeamFact → ℕ → LampMachine → Type 0
Shows f t m = (m.fault ≡ false) × (m.fact ≡ f) × (m.last_write_ms ≡ t)

Holds-Shows : (f : BeamFact) (t : ℕ) (h : History) → Holds f t h → Shows f t (run h)
unfolding run apply
Holds-Shows f t [] h = absurd h
Holds-Shows f t ((fact g, now) ∷ older) h = ground arith
Holds-Shows f t ((link_down, now) ∷ older) h = absurd h
Holds-Shows f t ((tick, now) ∷ older) h = ground (arith, Holds-Shows f t older h.1)

Shows-Holds : (f : BeamFact) (t : ℕ) (h : History) → Shows f t (run h) → Holds f t h
unfolding run apply
Shows-Holds f t [] h = cc
Shows-Holds f t ((fact g, now) ∷ older) h = ground arith
Shows-Holds f t ((link_down, now) ∷ older) h = ground arith
Shows-Holds f t ((tick, now) ∷ older) h =
    ground (arith, Shows-Holds f t older, live_unless_fault older)

-- The machine is out of its fault state, with fact `f` of time `t`, exactly when `f` is the newest
-- event but for ticks, was written at `t`, and every later tick came less than 30 s after `t`.
pub run-Holds :
    (f : BeamFact) (t : ℕ) (h : History)
    → Holds f t h ↔ (((run h).fault ≡ false) × ((run h).fact ≡ f) × ((run h).last_write_ms ≡ t))
run-Holds f t h = (Holds-Shows f t h, Shows-Holds f t h)

-- After any history the lamp either shows a fact that is in force, steadily, or no fact is in force
-- and it shows the fault pattern.
pub level-run :
    (h : History) (now : ℕ)
    → ((f : BeamFact) × (t : ℕ) × Holds f t h × (level (run h) now ≡ is_broken f))
      ⊎ (((f : BeamFact) (t : ℕ) → ¬ Holds f t h)
          × (level (run h) now ≡ fault_level (now - (run h).fault_since_ms)))
unfolding level
level-run h now = elim (Bool-cases (run h).fault) [
  | inl faulty ↦ inr (λ f t holds. cc (Holds-Shows f t h holds).0, rw faulty)
  | inr shows ↦
      inl ((run h).fact, (run h).last_write_ms, Shows-Holds _ _ h (shows, refl, refl), rw shows)
]
