-- ===== src/Wifi/Supervisor/Outage.antt =====
-- An outage ends in a reset of the chip, and not too soon: app/src/net.rs.
use garagelight.Prelude.{
  ap, ◌∙◌, sym, ◌↔◌, min, ℕ, ◌+◌, ◌*◌, ◌≤◌, ◌<◌, ◌≡◌, refl, subst, Bool, true, false, ◌&&◌, List,
  [], ◌∷◌, arith, All, length, if◌then◌else◌, inl, inr, ◌⊎◌,
}
use garagelight.Wifi.Watchdog.{reset, secs, record_elapsed, is_reset_due}
use garagelight.Wifi.Supervisor.{
  Answers, Supervisor, start, is_joined, dhcp_up, after_join, joining, pausing, ending, turn,
  supervise,
}

-- A turn that gets an address.
abbrev pub leased : Answers → Bool
leased a = is_joined a.join && (dhcp_up a && a.has_config)

-- A turn that gets no address, and that nobody hurries.
abbrev pub IsOut : Answers → Type 0
IsOut a = (leased a ≡ false) × (a.rejoin_requested ≡ false)

-- A wait that the supervisor uses: 30, 60 or 120 s would do, and it lies between.
abbrev pub IsBackoff : Supervisor → Type 0
IsBackoff s = (30 ≤ s.backoff_secs) × (s.backoff_secs ≤ 120)

joining-IsBackoff : (s : Supervisor) (a : Answers) → IsBackoff s → IsBackoff (joining s a)
unfolding joining after_join
joining-IsBackoff s a h = ground (arith, h.0, h.1)

joining-elapsed :
    (s : Supervisor) (a : Answers)
    → leased a ≡ false
    → (joining s a).no_ip.elapsed ≡ s.no_ip.elapsed
unfolding joining after_join
joining-elapsed s a h = ground (arith, h)

-- A turn of an outage ends in a reset, or in a wait of 30 s at least.
abbrev Suffered : ℕ → Supervisor × Bool → Type 0
Suffered elapsed r =
    (r.1 ≡ true)
    ⊎ ((r.1 ≡ false)
        × IsBackoff r.0
        × (secs 30 + elapsed ≤ r.0.no_ip.elapsed)
        × (r.0.no_ip.elapsed < secs 180))

paused-Suffered :
    (s : Supervisor) (a : Answers)
    → IsBackoff s
    → s.no_ip.elapsed < secs 180
    → a.rejoin_requested ≡ false
    → Suffered s.no_ip.elapsed (ending (pausing s a))
unfolding pausing ending is_reset_due record_elapsed
paused-Suffered s a b calm q = ground (arith, b.0, b.1, calm, q)

turn-Suffered :
    (s : Supervisor) (a : Answers)
    → IsBackoff s
    → s.no_ip.elapsed < secs 180
    → IsOut a
    → Suffered s.no_ip.elapsed (turn s a)
unfolding turn
turn-Suffered s a b calm out =
    subst (λ n. Suffered n (ending (pausing (joining s a) a))) same
      (paused-Suffered (joining s a) a (joining-IsBackoff s a b) (rw same calm) out.1)
  where
    same : (joining s a).no_ip.elapsed ≡ s.no_ip.elapsed
    same = joining-elapsed s a out.0

supervise-from :
    (outage : List Answers) (s : Supervisor)
    → IsBackoff s
    → s.no_ip.elapsed < secs 180
    → All IsOut outage
    → secs 180 ≤ s.no_ip.elapsed + length outage * secs 30
    → supervise s outage ≡ true
unfolding supervise
supervise-from [] s b calm h long = absurd (omega arith)
supervise-from (a ∷ rest) s b calm (out, h) long =
    go (turn s a) (turn-Suffered s a b calm out)
      (λ b' more calm'. supervise-from rest (turn s a).0 b' calm' h (omega (arith, more)))
  where
    go :
        (r : Supervisor × Bool)
        → Suffered s.no_ip.elapsed r
        → (IsBackoff r.0
            → secs 30 + s.no_ip.elapsed ≤ r.0.no_ip.elapsed
            → r.0.no_ip.elapsed < secs 180
            → supervise r.0 rest ≡ true)
        → (if r.1 then true else supervise r.0 rest) ≡ true
    go r (inl e) next = rw e refl
    go r (inr (e, b', more, calm')) next = rw e (next b' more calm')

-- The supervisor after some turns, none of which resets the chip, the newest first.
abbrev pub Calm : List Answers → Supervisor → Type 0
Calm [] s = s ≡ start
Calm (a ∷ older) s = (before : Supervisor) × Calm older before × (turn before a ≡ (s, false))

-- The next wait after some turns, in seconds: it doubles up to 120 s, from 30 s at every join.
abbrev pub backoff : List Answers → ℕ
backoff [] = 30
backoff (a ∷ older) = min ((if is_joined a.join then 30 else backoff older) * 2) 120

-- The time waited since the last address, in nanoseconds.
abbrev pub waited : List Answers → ℕ
waited [] = 0
waited (a ∷ older) =
    (if leased a then 0 else waited older)
    + (if a.rejoin_requested then 0 else secs (if is_joined a.join then 30 else backoff older))

joining-sums :
    (s : Supervisor) (a : Answers)
    → ((joining s a).no_ip.elapsed ≡ (if leased a then 0 else s.no_ip.elapsed))
      × ((joining s a).backoff_secs ≡ (if is_joined a.join then 30 else s.backoff_secs))
unfolding joining after_join reset
joining-sums s a = (ground arith, ground arith)

-- The sum of the watchdog after the wait of a turn.
abbrev total_of : Supervisor → Answers → ℕ
total_of s a = s.no_ip.elapsed + (if a.rejoin_requested then 0 else secs s.backoff_secs)

ending-sums :
    (s : Supervisor) (a : Answers)
    → s.no_ip.elapsed < secs 180
    → s.backoff_secs ≤ 120
    → (((ending (pausing s a)).1 ≡ true) ↔ (secs 180 ≤ total_of s a))
      × ((ending (pausing s a)).1 ≡ false
          → ((ending (pausing s a)).0.no_ip.elapsed ≡ total_of s a)
            × ((ending (pausing s a)).0.backoff_secs ≡ min (s.backoff_secs * 2) 120))
unfolding ending pausing is_reset_due record_elapsed
ending-sums s a calm most =
    ((λ e. ground arith, λ e. ground arith), λ e. (ground arith, ground arith))

-- What is known of a supervisor after turns without a reset.
record IsAfter (h : List Answers) (s : Supervisor) : Type 0 where
  least : 30 ≤ s.backoff_secs
  most : s.backoff_secs ≤ 120
  calm : s.no_ip.elapsed < secs 180
  backoff_is : s.backoff_secs ≡ backoff h
  waited_is : s.no_ip.elapsed ≡ waited h

turn-sums :
    (h : List Answers) (s : Supervisor) (a : Answers)
    → IsAfter h s
    → (((turn s a).1 ≡ true) ↔ (secs 180 ≤ waited (a ∷ h)))
      × ((turn s a).1 ≡ false → IsAfter (a ∷ h) (turn s a).0)
unfolding turn
turn-sums h s a after = (
  rw (sym total)
      (ending-sums (joining s a) a calm (ground (arith, after.most, (joining-sums s a).1))).0,
  λ e.
      next
        ((ending-sums (joining s a) a calm (ground (arith, after.most, (joining-sums s a).1))).1 e)
        e,
)
  where
    calm : (joining s a).no_ip.elapsed < secs 180
    calm = ground (arith, after.calm, (joining-sums s a).0)

    total : total_of (joining s a) a ≡ waited (a ∷ h)
    total =
        ground
          (arith, (joining-sums s a).0, (joining-sums s a).1, after.backoff_is, after.waited_is)

    next :
        ((ending (pausing (joining s a) a)).0.no_ip.elapsed ≡ total_of (joining s a) a)
          × ((ending (pausing (joining s a) a)).0.backoff_secs
              ≡ min ((joining s a).backoff_secs * 2) 120)
        → (ending (pausing (joining s a) a)).1 ≡ false
        → IsAfter (a ∷ h) (ending (pausing (joining s a) a)).0
    next (e, b) f = record {
      least = ground (arith, b, (joining-sums s a).1, after.least);
      most = ground (arith, b);
      calm = below;
      backoff_is = b ∙ ap (λ n. min (n * 2) 120) pause;
      waited_is = e ∙ total;
    }
      where
        sums : ((ending (pausing (joining s a) a)).1 ≡ true) ↔ (secs 180 ≤ total_of (joining s a) a)
        sums =
            (ending-sums (joining s a) a calm (ground (arith, after.most, (joining-sums s a).1))).0

        below : (ending (pausing (joining s a) a)).0.no_ip.elapsed < secs 180
        below = ground (arith, e, f, sums)

        pause : (joining s a).backoff_secs ≡ (if is_joined a.join then 30 else backoff h)
        pause = (joining-sums s a).1 ∙ ap (λ n. if is_joined a.join then 30 else n) after.backoff_is

Calm-IsAfter : (h : List Answers) (s : Supervisor) → Calm h s → IsAfter h s
Calm-IsAfter [] s e = rw e started
  where
    started : IsAfter [] start
    started =
        unfold start in
        record {
          least = omega arith;
          most = omega arith;
          calm = omega arith;
          backoff_is = refl;
          waited_is = refl;
        }
Calm-IsAfter (a ∷ older) s (before, c, e) =
    subst (λ q. IsAfter (a ∷ older) q) (ap (λ r. r.0) e)
      ((turn-sums older before a (Calm-IsAfter older before c)).1 (ap (λ r. r.1) e))

-- After any turns without a reset, the next one resets the chip exactly when the waits since the
-- last address, its own included, come to 180 s. A wait is 30 s after a join, and doubles up to
-- 120 s without one; a turn that a rejoin request hurries has none.
pub turn-resets :
    (h : List Answers) (s : Supervisor) (a : Answers)
    → Calm h s
    → ((turn s a).1 ≡ true) ↔ (180 * 1_000_000_000 ≤ waited (a ∷ h))
turn-resets h s a c = (turn-sums h s a (Calm-IsAfter h s c)).0

-- An outage does not last: after any turns without a reset, six turns that get no address and that
-- nobody hurries reset the chip.
pub supervise-outage :
    (h : List Answers) (s : Supervisor) (outage : List Answers)
    → Calm h s
    → All IsOut outage
    → 6 ≤ length outage
    → supervise s outage ≡ true
supervise-outage h s outage c out long =
    let after = Calm-IsAfter h s c in
    supervise-from outage s (after.least, after.most) after.calm out (omega arith)
