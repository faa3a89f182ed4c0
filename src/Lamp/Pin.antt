-- ===== src/Lamp/Pin.antt =====
-- The single owner of the lamp pin: app/src/lamp.rs. The pin itself is the list of the levels
-- driven on it, the newest first; the task is a function of the events received, with the time
-- at which each was received, the newest first.
use garagelight.Prelude.{
  ◌∙◌, refl, ℕ, ◌≡◌, ◌≢◌, Bool, true, false, List, [], ◌∷◌, if◌then◌else◌, not, arith,
}
use garagelight.Lamp.{LampEvent, LampMachine, new, apply, level}
use garagelight.Lamp.Leash.{History, run}

abbrev lamp_on_level : Bool
lamp_on_level = true

pub data Level : Type 0 where
  low high : Level

abbrev eq_bool : Bool → Bool → Bool
eq_bool true b = b
eq_bool false b = not b

abbrev eq_level : Level → Level → Bool
eq_level low low = true
eq_level high high = true
eq_level _ _ = false

pub record Lamp : Type 0 where
  pub output : List Level
  pub machine : LampMachine
  pub last : Level

-- `Output::new` drives the first level.
new_lamp : Lamp
new_lamp =
    let dark = if lamp_on_level then low else high in
    record { output = dark ∷ []; machine = new; last = dark }

drive : Lamp → ℕ → Lamp
drive lamp now_ms =
    let lit = level lamp.machine now_ms in
    let want = if eq_bool lit lamp_on_level then high else low in
    if not (eq_level want lamp.last)
    then record lamp { output = want ∷ lamp.output; last = want }
    else lamp

-- One turn of the task's loop.
receive : Lamp → LampEvent → ℕ → Lamp
receive lamp e now = drive (record lamp { machine = apply lamp.machine e now }) now

-- The task, started at `start`, after it has received a history.
pub lamp_task : ℕ → History → Lamp
unfolding new_lamp drive receive
lamp_task start [] = drive new_lamp start
lamp_task start ((e, now) ∷ older) = receive (lamp_task start older) e now

abbrev pub last_time : ℕ → History → ℕ
last_time start [] = start
last_time start ((e, now) ∷ older) = now

lamp_task-machine : (start : ℕ) (h : History) → (lamp_task start h).machine ≡ run h
unfolding lamp_task run
lamp_task-machine start [] = ground arith
lamp_task-machine start ((e, now) ∷ older) = ground (arith, lamp_task-machine start older)

-- The newest level on the pin.
abbrev pub driven : List Level → Level
driven [] = low
driven (l ∷ _) = l

abbrev Differs : Level → List Level → Type 0
Differs l [] = Unit
Differs l (k ∷ _) = l ≢ k

-- No level is driven twice in a row.
abbrev pub Alternates : List Level → Type 0
Alternates [] = Unit
Alternates (l ∷ ls) = Differs l ls × Alternates ls

record Inv (lamp : Lamp) : Type 0 where
  last_driven : driven lamp.output ≡ lamp.last
  alternates : Alternates lamp.output

Differs-driven : (l : Level) (o : List Level) → l ≢ driven o → Differs l o
Differs-driven l [] h = tt
Differs-driven l (k ∷ ks) h = h

drive-Inv : (lamp : Lamp) (now : ℕ) → Inv lamp → Inv (drive lamp now)
unfolding drive
drive-Inv lamp now v =
    ground (arith, Differs-driven low lamp.output, Differs-driven high lamp.output)

lamp_task-Inv : (start : ℕ) (h : History) → Inv (lamp_task start h)
unfolding lamp_task
lamp_task-Inv start [] =
    drive-Inv new_lamp start
      (unfold new_lamp in record { last_driven = refl; alternates = (tt, tt) })
lamp_task-Inv start ((e, now) ∷ older) =
    receive-Inv (lamp_task start older) (lamp_task-Inv start older)
  where
    receive-Inv : (lamp : Lamp) → Inv lamp → Inv (receive lamp e now)
    receive-Inv lamp v =
        unfold receive in
        drive-Inv (record lamp { machine = apply lamp.machine e now }) now
          (record { last_driven = v.last_driven; alternates = v.alternates })

drive-last :
    (lamp : Lamp) (now : ℕ) → (drive lamp now).last ≡ (if level lamp.machine now then high else low)
unfolding drive
drive-last lamp now = ground arith

lamp_task-last :
    (start : ℕ) (h : History)
    → (lamp_task start h).last ≡ (if level (run h) (last_time start h) then high else low)
unfolding lamp_task run receive
lamp_task-last start [] = unfold new_lamp in drive-last new_lamp start
lamp_task-last start ((e, now) ∷ older) =
    drive-last
      (record (lamp_task start older) { machine = apply (lamp_task start older).machine e now }) now
    ∙ rw (lamp_task-machine start older)

-- After each event the pin holds the level that the lamp machine asks for at the time of that
-- event, and the task never drives a level that is on the pin already.
pub lamp_task-level :
    (start : ℕ) (h : History)
    → (driven (lamp_task start h).output
        ≡ (if level (run h) (last_time start h) then high else low))
      × Alternates (lamp_task start h).output
lamp_task-level start h =
    let v = lamp_task-Inv start h in (v.last_driven ∙ lamp_task-last start h, v.alternates)
