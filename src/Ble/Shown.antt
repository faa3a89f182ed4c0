-- ===== src/Ble/Shown.antt =====
-- What the lamp shows is what the sensor last wrote on the open connection: app/src/ble.rs.
use garagelight.Prelude.{
  subst, ℕ, ◌-◌, ◌<◌, ◌≡◌, ◌∙◌, ◌↔◌, ◌⊎◌, sym, inl, inr, refl, Bool, true, false, List, [], ◌∷◌,
  arith, Bytes, subst, ◌&&◌, if◌then◌else◌,
}
use garagelight.Contract.{BeamFact, intact, broken, wire_value}
use garagelight.Lamp.{LampEvent, fact, link_down, tick}
use garagelight.Lamp.Leash.{History, run, Holds, run-Holds}
use garagelight.Ble.{
  waited, GattEvent, disconnected, write, other, Attempt, advertise_failed, accept_failed,
  gatt_failed, connected, Setup, posted, Ble, boot, act, on_write, serve, start_advertising,
  attempts, peripheral_task,
}
use garagelight.Ble.Posts.{posts, Delivers, Silent, Last, IsOpen, IsLinked, on_write-posts}

-- The posts begin with a fact.
abbrev Leads : BeamFact → List LampEvent → Type 0
Leads f es = (older : List LampEvent) × (es ≡ fact f ∷ older)

-- What the posts of a connection come to.
abbrev Served : List GattEvent → Ble → Bool × Ble → Type 0
Served events b (true, b') =
    ¬ IsOpen events × ((older : List LampEvent) × (posts b'.log ≡ link_down ∷ older))
Served events b (false, b') =
    IsOpen events
    × ((Silent events × (posts b'.log ≡ posts b.log))
        ⊎ ((f : BeamFact) × Last f events × Leads f (posts b'.log)))

serve-Served : (events : List GattEvent) (b : Ble) → Served events b (serve events b)
unfolding serve
serve-Served [] b = (tt, inl (tt, refl))
serve-Served (disconnected ∷ later) b = ((λ h. h), (posts b.log, refl))
serve-Served (other ∷ later) b = serve-Served later b
serve-Served (write w ∷ later) b =
    write_served (serve later (on_write w b)) (on_write-posts w b)
      (serve-Served later (on_write w b))
  where
    write_served :
        (r : Bool × Ble)
        → ((f : BeamFact) × Delivers f w × (posts (on_write w b).log ≡ fact f ∷ posts b.log))
          ⊎ (((f : BeamFact) → ¬ Delivers f w) × (posts (on_write w b).log ≡ posts b.log))
        → Served later (on_write w b) r
        → Served (write w ∷ later) b r
    write_served (true, b') h s = s
    write_served (false, b') h (o, inr (f, l, e)) = (o, inr (f, inr l, e))
    write_served (false, b') (inl (f, d, p)) (o, inl (silent, e)) =
        (o, inr (f, inl (d, silent), (posts b.log, e ∙ p)))
    write_served (false, b') (inr (n, p)) (o, inl (silent, e)) = (o, inl ((n, silent), e ∙ p))

-- No fact is the newest post.
abbrev Dark : List LampEvent → Type 0
Dark es = (es ≡ []) ⊎ ((older : List LampEvent) × (es ≡ link_down ∷ older))

abbrev Shown : List Attempt → List LampEvent → Type 0
Shown tries es =
    (Dark es × ((f : BeamFact) (events : List GattEvent) → IsLinked events tries → ¬ Last f events))
    ⊎ ((f : BeamFact) × (events : List GattEvent) × IsLinked events tries
        × Last f events
        × Leads f es)

Silent-not-Last : (f : BeamFact) (events : List GattEvent) → Silent events → ¬ Last f events
Silent-not-Last f [] s l = l
Silent-not-Last f (disconnected ∷ later) s l = Silent-not-Last f later s l
Silent-not-Last f (other ∷ later) s l = Silent-not-Last f later s l
Silent-not-Last f (write w ∷ later) s (inl d) = s.0 f d.0
Silent-not-Last f (write w ∷ later) s (inr l) = Silent-not-Last f later s.1 l

attempts-Shown :
    (tries : List Attempt) (b : Ble)
    → Dark (posts b.log)
    → Shown tries (posts (attempts tries b).log)
unfolding attempts
attempts-Shown [] b dark = inl (dark, λ f events l x. l)
attempts-Shown (advertise_failed ∷ later) b dark = attempts-Shown later (act (waited 500) b) dark
attempts-Shown (accept_failed ∷ later) b dark =
    attempts-Shown later (act (posted link_down) (start_advertising b)) (inr (posts b.log, refl))
attempts-Shown (gatt_failed ∷ later) b dark =
    attempts-Shown later (act (posted link_down) (start_advertising b)) (inr (posts b.log, refl))
attempts-Shown (connected es ∷ later) b dark =
    shown (serve es (start_advertising b)) (serve-Served es (start_advertising b))
      (λ b'. attempts-Shown later b')
  where
    shown :
        (r : Bool × Ble)
        → Served es (start_advertising b) r
        → ((b' : Ble) → Dark (posts b'.log) → Shown later (posts (attempts later b').log))
        → Shown (connected es ∷ later) (posts (if r.0 then attempts later r.1 else r.1).log)
    shown (true, b') (closed, head) next = closed_shown (next b' (inr head))
      where
        closed_shown :
            Shown later (posts (attempts later b').log)
            → Shown (connected es ∷ later) (posts (attempts later b').log)
        closed_shown (inl (d, n)) = inl (d, not_last)
          where
            not_last :
                (f : BeamFact) (events : List GattEvent)
                → IsLinked events (connected es ∷ later)
                → ¬ Last f events
            not_last f events (inl (o, e)) x = closed o
            not_last f events (inr (c, l)) x = n f events l x
        closed_shown (inr (f, events, l, x, leads)) = inr (f, events, inr (closed, l), x, leads)
    shown (false, b') (open', inr (f, l, leads)) next = inr (f, es, inl (open', refl), l, leads)
    shown (false, b') (open', inl (silent, e)) next = inl (still_dark dark, not_last)
      where
        still_dark : Dark (posts b.log) → Dark (posts b'.log)
        still_dark (inl p) = inl (e ∙ p)
        still_dark (inr (older, p)) = inr (older, e ∙ p)

        not_last :
            (f : BeamFact) (events : List GattEvent)
            → IsLinked events (connected es ∷ later)
            → ¬ Last f events
        not_last f events (inl (o, p)) x =
            Silent-not-Last f es silent (subst (λ z. Last f z) (sym p) x)
        not_last f events (inr (c, l)) x = c open'

-- The events of a history that come from the BLE task.
abbrev pub control : History → List LampEvent
control [] = []
control ((tick, now) ∷ older) = control older
control ((fact f, now) ∷ older) = fact f ∷ control older
control ((link_down, now) ∷ older) = link_down ∷ control older

-- The newest event but for ticks is of time `t`, and every later tick came less than 30 s after it.
abbrev pub Ticked : ℕ → History → Type 0
Ticked t [] = ⊥
Ticked t ((tick, now) ∷ older) = (now - t < 30_000) × Ticked t older
Ticked t ((fact f, now) ∷ older) = t ≡ now
Ticked t ((link_down, now) ∷ older) = t ≡ now

Holds-Leads : (f : BeamFact) (t : ℕ) (h : History) → Holds f t h → Leads f (control h) × Ticked t h
Holds-Leads f t [] h = absurd h
Holds-Leads f t ((fact g, now) ∷ older) h = ((control older, cc), h.1)
Holds-Leads f t ((link_down, now) ∷ older) h = absurd h
Holds-Leads f t ((tick, now) ∷ older) h =
    let (leads, ticked) = Holds-Leads f t older h.1 in (leads, (h.0, ticked))

Leads-Holds : (f : BeamFact) (t : ℕ) (h : History) → Leads f (control h) → Ticked t h → Holds f t h
Leads-Holds f t [] h k = absurd k
Leads-Holds f t ((fact g, now) ∷ older) h k = (cc h.1, k)
Leads-Holds f t ((link_down, now) ∷ older) h k = absurd (cc h.1)
Leads-Holds f t ((tick, now) ∷ older) h k = (k.0, Leads-Holds f t older h k.1)

-- The newest fact that the sensor delivered on the connection that is open now.
abbrev pub Current : BeamFact → List Attempt → Type 0
Current f tries = (events : List GattEvent) × IsLinked events tries × Last f events

wire_value_inj : (f g : BeamFact) → Path Bytes (wire_value f ∷ []) (wire_value g ∷ []) → f ≡ g
wire_value_inj intact intact e = refl
wire_value_inj broken broken e = refl
wire_value_inj intact broken e = absurd (ground arith)
wire_value_inj broken intact e = absurd (ground arith)

Last-unique : (f g : BeamFact) (events : List GattEvent) → Last f events → Last g events → f ≡ g
Last-unique f g [] k l = absurd k
Last-unique f g (disconnected ∷ later) k l = Last-unique f g later k l
Last-unique f g (other ∷ later) k l = Last-unique f g later k l
Last-unique f g (write w ∷ later) (inl d) (inl e) = wire_value_inj f g (sym (d.0).byte ∙ (e.0).byte)
Last-unique f g (write w ∷ later) (inl d) (inr l) = absurd (Silent-not-Last g later d.1 l)
Last-unique f g (write w ∷ later) (inr k) (inl e) = absurd (Silent-not-Last f later e.1 k)
Last-unique f g (write w ∷ later) (inr k) (inr l) = Last-unique f g later k l

IsLinked-unique :
    (es es' : List GattEvent) (tries : List Attempt)
    → IsLinked es tries
    → IsLinked es' tries
    → es ≡ es'
IsLinked-unique es es' [] k l = absurd k
IsLinked-unique es es' (advertise_failed ∷ later) k l = IsLinked-unique es es' later k l
IsLinked-unique es es' (accept_failed ∷ later) k l = IsLinked-unique es es' later k l
IsLinked-unique es es' (gatt_failed ∷ later) k l = IsLinked-unique es es' later k l
IsLinked-unique es es' (connected c ∷ later) (inl k) (inl l) = sym k.1 ∙ l.1
IsLinked-unique es es' (connected c ∷ later) (inl k) (inr l) = absurd (l.0 k.0)
IsLinked-unique es es' (connected c ∷ later) (inr k) (inl l) = absurd (k.0 l.0)
IsLinked-unique es es' (connected c ∷ later) (inr k) (inr l) = IsLinked-unique es es' later k.1 l.1

Leads-Current :
    (f : BeamFact) (tries : List Attempt) (es : List LampEvent)
    → Shown tries es
    → Leads f es ↔ Current f tries
Leads-Current f tries es (inl (inl dark, n)) =
    ((λ k. absurd (cc (k.1, dark))), (λ k. absurd (n f k.0 k.1 k.2)))
Leads-Current f tries es (inl (inr dark, n)) =
    ((λ k. absurd (cc (k.1, dark.1))), (λ k. absurd (n f k.0 k.1 k.2)))
Leads-Current f tries es (inr (g, events, linked, l, leads)) = (forth, back)
  where
    forth : Leads f es → Current f tries
    forth k = (events, linked, subst (λ z. Last z events) (cc (k.1, leads.1)) l)

    back : Current f tries → Leads f es
    back (events', linked', l') =
        let same = IsLinked-unique events' events tries linked' linked in
        let facts = Last-unique g f events l (subst (Last f) same l') in
        (leads.0, cc (leads.1, facts))

-- Once the server and the advertisement are built, and while no event is lost between the tasks, the
-- lamp is out of its fault state with a fact of time `t` exactly when a connection is open on which
-- the newest write command of one valid byte that the stack accepted has that fact, and every tick
-- of the lamp since then came less than 30 s after it.
pub peripheral_task-lamp :
    (setup : Setup) (tries : List Attempt) (h : History) (f : BeamFact) (t : ℕ)
    → setup.server && (setup.adv && setup.scan) ≡ true
    → control h ≡ posts (peripheral_task setup tries).log
    → (((run h).fault ≡ false) × ((run h).fact ≡ f) × ((run h).last_write_ms ≡ t))
      ↔ (Current f tries × Ticked t h)
unfolding peripheral_task
peripheral_task-lamp setup tries h f t up same =
    let leads = Leads-Current f tries (control h) (subst (Shown tries) (sym fed) shown) in
    (
      (λ k. let (l, ticked) = Holds-Leads f t h ((run-Holds f t h).1 k) in (leads.0 l, ticked)),
      (λ k. (run-Holds f t h).0 (Leads-Holds f t h (leads.1 k.0) k.1)),
    )
  where
    fed : control h ≡ posts (attempts tries boot).log
    fed = same ∙ rw up refl

    shown : Shown tries (posts (attempts tries boot).log)
    shown = unfold boot in attempts-Shown tries boot (inl refl)
