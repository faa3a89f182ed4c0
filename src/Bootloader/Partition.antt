-- ===== src/Bootloader/Partition.antt =====
-- What the checks of bootloader/build.rs give, one by one.
use garagelight.Prelude.{
  ◌^◌, ◌<◌, ◌+◌, ◌%◌, ◌≤◌, ◌≡◌, ◌⊎◌, inl, inr, refl, ap, subst, Bool, true, false, List, [], ◌∷◌,
  Option, none, some, arith, leb, Bytes, All, Bool-cases,
}
use garagelight.Result.{Result, ok, err, ok_or, ok_inj}
use garagelight.Bootloader.{Panic, missing_region}
use garagelight.Bootloader.Memory.{
  Region, Regions, find, lookup, add_u32, check, for_each, check_end, check_aligned, check_dfu,
  insert, sort, check_windows,
}

-- Neither region reaches into the other.
abbrev pub Apart : Region → Region → Type 0
Apart r s = (r.origin + r.size ≤ s.origin) ⊎ (s.origin + s.size ≤ r.origin)

abbrev pub AllApart : List Region → Type 0
AllApart [] = Unit
AllApart (r ∷ later) = All (Apart r) later × AllApart later

-- It ends by the end of the flash; nothing is checked of where it begins.
abbrev pub EndsInFlash : Region → Type 0
EndsInFlash r = r.origin + r.size ≤ 0x1020_0000

-- Neither its end nor its size and one page more overflow a u32.
abbrev pub IsSmall : Region → Type 0
IsSmall r = (r.origin + r.size < 2 ^ 32) × (r.size + 4096 < 2 ^ 32)

abbrev pub IsAligned : Region → Type 0
IsAligned r = (r.origin % 4096 ≡ 0) × (r.size % 4096 ≡ 0)

pub check-ok : (b : Bool) (e : Panic) → check b e ≡ ok tt → b ≡ true
check-ok true e h = refl
check-ok false e h = absurd cc

pub lookup-ok :
    (name : Bytes) (regions : Regions) (r : Region)
    → lookup name regions ≡ ok r
    → find name regions ≡ some r
lookup-ok name regions r h = by_find (find name regions) h
  where
    by_find : (o : Option Region) → ok_or o missing_region ≡ ok r → o ≡ some r
    by_find none e = absurd cc
    by_find (some s) e = ap some (ok_inj {E = Panic} s r e)

pub for_each-ok :
    {A : Type 0} (body : A → Result Panic Unit) (l : List A)
    → for_each body l ≡ ok tt
    → All (λ a. body a ≡ ok tt) l
unfolding for_each
for_each-ok body [] h = tt
for_each-ok body (a ∷ later) h = by_first (body a) refl h (λ k. for_each-ok body later k)
  where
    by_first :
        (x : Result Panic Unit)
        → body a ≡ x
        → Path (Result Panic Unit) (elim x [ err e ↦ err e | ok _ ↦ for_each body later ]) (ok tt)
        → (for_each body later ≡ ok tt → All (λ a. body a ≡ ok tt) later)
        → All (λ a. body a ≡ ok tt) (a ∷ later)
    by_first (err x) e k rest = absurd cc
    by_first (ok tt) e k rest = (e, rest k)

-- What the loops over the names give.
pub check_end-ok :
    (regions : Regions) (name : Bytes) (r : Region)
    → IsSmall r
    → find name regions ≡ some r
    → check_end regions name ≡ ok tt
    → EndsInFlash r
unfolding check_end add_u32
check_end-ok regions name r small f h = ground (arith, small.0, f, h)

pub check_aligned-ok :
    (regions : Regions) (name : Bytes) (r : Region)
    → find name regions ≡ some r
    → check_aligned regions name ≡ ok tt
    → IsAligned r
unfolding check_aligned add_u32
check_aligned-ok regions name r f h = ground (arith, f, h)

pub check_dfu-ok :
    (active dfu : Region)
    → IsSmall active
    → check_dfu active dfu ≡ ok tt
    → (dfu.origin ≡ active.origin + active.size) × (dfu.size ≡ active.size + 4096)
unfolding check_dfu add_u32
check_dfu-ok active dfu small h = ground (arith, small.0, small.1, h)

-- Regions one behind the other.
pub Chain : List Region → Type 0
Chain [] = Unit
Chain (r ∷ []) = Unit
Chain (r ∷ s ∷ later) = (r.origin + r.size ≤ s.origin) × Chain (s ∷ later)

pub check_windows-Chain : (rs : List Region) → All IsSmall rs → check_windows rs ≡ ok tt → Chain rs
unfolding check_windows Chain add_u32
check_windows-Chain [] small h = tt
check_windows-Chain (r ∷ []) small h = tt
check_windows-Chain (r ∷ s ∷ later) small h =
    ground (arith, small.0.0, h, check_windows-Chain (s ∷ later) small.1)

-- All of a chain lies behind what its first region lies behind.
behind-All :
    (r s : Region) (later : List Region)
    → r.origin + r.size ≤ s.origin
    → Chain (s ∷ later)
    → All (Apart r) (s ∷ later)
unfolding Chain
behind-All r s [] le h = (inl le, tt)
behind-All r s (t ∷ later) le h = (inl le, behind-All r t later (omega (arith, h.0)) h.1)

pub Chain-AllApart : (rs : List Region) → Chain rs → AllApart rs
unfolding Chain
Chain-AllApart [] h = tt
Chain-AllApart (r ∷ []) h = (tt, tt)
Chain-AllApart (r ∷ s ∷ later) h = (behind-All r s later h.0 h.1, Chain-AllApart (s ∷ later) h.1)

Apart-sym : (r s : Region) → Apart s r → Apart r s
Apart-sym r s (inl h) = inr h
Apart-sym r s (inr h) = inl h

insert-All :
    (P : Region → Type 0) (r : Region) (rs : List Region) → All P (insert r rs) → P r × All P rs
unfolding insert
insert-All P r [] h = h
insert-All P r (s ∷ later) h = elim (Bool-cases (leb r.origin s.origin)) [
  | inl before ↦
      let e : insert r (s ∷ later) ≡ r ∷ s ∷ later = rw (insert, before) refl in subst (All P) e h
  | inr after ↦
      let e : insert r (s ∷ later) ≡ s ∷ insert r later = rw (insert, after) refl in
      let (first, rest) = subst (All P) e h in
      let (here, others) = insert-All P r later rest in (here, (first, others))
]

sort-All : (P : Region → Type 0) (rs : List Region) → All P (sort rs) → All P rs
unfolding sort
sort-All P [] h = tt
sort-All P (r ∷ later) h =
    let (here, rest) = insert-All P r (sort later) h in (here, sort-All P later rest)

insert-AllApart : (r : Region) (rs : List Region) → AllApart (insert r rs) → AllApart (r ∷ rs)
unfolding insert
insert-AllApart r [] h = h
insert-AllApart r (s ∷ later) h = elim (Bool-cases (leb r.origin s.origin)) [
  | inl before ↦
      let e : insert r (s ∷ later) ≡ r ∷ s ∷ later = rw (insert, before) refl in subst AllApart e h
  | inr after ↦
      let e : insert r (s ∷ later) ≡ s ∷ insert r later = rw (insert, after) refl in
      let (from_s, rest) = subst AllApart e h in
      let (first, others) = insert-All (Apart s) r later from_s in
      let (from_r, apart) = insert-AllApart r later rest in
      ((Apart-sym r s first, from_r), (others, apart))
]

pub sort-AllApart : (rs : List Region) → AllApart (sort rs) → AllApart rs
unfolding sort
sort-AllApart [] h = tt
sort-AllApart (r ∷ later) h =
    let (apart, rest) = insert-AllApart r (sort later) h in
    (sort-All (Apart r) later apart, sort-AllApart later rest)

insert-All-of :
    (P : Region → Type 0) (r : Region) (rs : List Region) → P r → All P rs → All P (insert r rs)
unfolding insert
insert-All-of P r [] p all = (p, tt)
insert-All-of P r (s ∷ later) p all = elim (Bool-cases (leb r.origin s.origin)) [
  | inl before ↦ rw (insert, before) (p, all)
  | inr after ↦ rw (insert, after) (all.0, insert-All-of P r later p all.1)
]

pub sort-All-of : (P : Region → Type 0) (rs : List Region) → All P rs → All P (sort rs)
unfolding sort
sort-All-of P [] all = tt
sort-All-of P (r ∷ later) all = insert-All-of P r (sort later) all.0 (sort-All-of P later all.1)
