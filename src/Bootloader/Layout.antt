-- ===== src/Bootloader/Layout.antt =====
-- What a memory map that passes `validate` of bootloader/build.rs is like.
use garagelight.Prelude.{
  inr, inl, bytes_eq, Bool-cases, ◌+◌, ◌≡◌, ◌∙◌, sym, subst, true, List, [], ◌∷◌, some, Bytes,
  codes, All, some_inj, All-map,
}
use garagelight.Result.{ok, bind-ok, ok_inj}
use garagelight.Bootloader.{Panic, missing_symbol, contains}
use garagelight.Bootloader.Memory.{
  Region, Regions, find, lookup, lookup_all, check, for_each, check_present, check_end,
  check_aligned, check_dfu, sort, check_windows, partitions, symbols, parse_memory_x, validate,
}
use garagelight.Bootloader.Partition.{
  AllApart, EndsInFlash, IsSmall, IsAligned, check-ok, lookup-ok, for_each-ok, check_end-ok,
  check_aligned-ok, check_dfu-ok, Chain-AllApart, check_windows-Chain, sort-AllApart, sort-All-of,
}

-- The regions of a map that the bootloader can work with.
pub record IsLayout (regions : Regions) : Type 0 where
  pub boot2 : Region
  pub flash : Region
  pub active : Region
  pub dfu : Region
  pub state : Region
  pub found :
      (find (codes "BOOT2") regions ≡ some boot2)
      × (find (codes "FLASH") regions ≡ some flash)
      × (find (codes "ACTIVE") regions ≡ some active)
      × (find (codes "DFU") regions ≡ some dfu)
      × (find (codes "STATE") regions ≡ some state)
  pub in_flash : All EndsInFlash (boot2 ∷ flash ∷ active ∷ dfu ∷ state ∷ [])
  pub aligned : All IsAligned (active ∷ dfu ∷ state ∷ [])
  pub behind : dfu.origin ≡ active.origin + active.size
  pub one_page_more : dfu.size ≡ active.size + 4096
  pub apart : AllApart (boot2 ∷ flash ∷ active ∷ dfu ∷ state ∷ [])

find-All :
    (P : Region → Type 0) (regions : Regions)
    → All (λ (r : Bytes × Region). P r.1) regions
    → (name : Bytes) (r : Region) → find name regions ≡ some r
    → P r
unfolding find
find-All P [] all name r f = cc
find-All P ((key, s) ∷ rest) all name r f = elim (Bool-cases (bytes_eq key name)) [
  | inl here ↦ subst P (some_inj (rw here at f)) all.0
  | inr past ↦ find-All P rest all.1 name r (rw past at f)
]

module _ (regions : Regions) where
  abbrev Looked : List Bytes → List Region → Type 0
  Looked [] [] = Unit
  Looked [] (r ∷ rs) = ⊥
  Looked (n ∷ ns) [] = ⊥
  Looked (n ∷ ns) (r ∷ rs) = (find n regions ≡ some r) × Looked ns rs

  lookup_all-Looked :
      (names : List Bytes) (rs : List Region) → lookup_all names regions ≡ ok rs → Looked names rs
  unfolding lookup_all
  lookup_all-Looked [] rs h = subst (Looked []) (ok_inj {E = Panic} [] rs h) tt
  lookup_all-Looked (n ∷ ns) rs h =
      let (r, found, h₁) = bind-ok (lookup n regions) _ rs h in
      let (rs', others, h₂) = bind-ok (lookup_all ns regions) _ rs h₁ in
      subst (Looked (n ∷ ns)) (ok_inj {E = Panic} (r ∷ rs') rs h₂)
        (lookup-ok n regions r found, lookup_all-Looked ns rs' others)

  Looked-All :
      (P : Region → Type 0) (names : List Bytes) (rs : List Region)
      → ((name : Bytes) (r : Region) → find name regions ≡ some r → P r)
      → Looked names rs
      → All P rs
  Looked-All P [] [] every l = tt
  Looked-All P [] (r ∷ rs) every l = absurd l
  Looked-All P (n ∷ ns) [] every l = absurd l
  Looked-All P (n ∷ ns) (r ∷ rs) every l = (every n r l.0, Looked-All P ns rs every l.1)

  -- The checks that `validate` makes of the regions, all but the first.
  record Checked (all : List Region) : Type 0 where
    active : Region
    dfu : Region
    ends : for_each (check_end regions) partitions ≡ ok tt
    pages :
        for_each (check_aligned regions) (codes "ACTIVE" ∷ codes "DFU" ∷ codes "STATE" ∷ []) ≡ ok tt
    active_found : lookup (codes "ACTIVE") regions ≡ ok active
    dfu_found : lookup (codes "DFU") regions ≡ ok dfu
    swaps : check_dfu active dfu ≡ ok tt
    windows : check_windows (sort all) ≡ ok tt

  Checked-IsLayout :
      (all : List Region) → All IsSmall all → Looked partitions all → Checked all → IsLayout regions
  Checked-IsLayout (b ∷ f ∷ a ∷ d ∷ s ∷ []) small (fb, (ff, (fa, (fd, (fs, t))))) c = record {
    boot2 = b;
    flash = f;
    active = a;
    dfu = d;
    state = s;
    found = (fb, ff, fa, fd, fs);
    in_flash = (
      check_end-ok regions _ b small.0 fb ends.0,
      (
        check_end-ok regions _ f small.1.0 ff ends.1.0,
        (
          check_end-ok regions _ a small.1.1.0 fa ends.1.1.0,
          (
            check_end-ok regions _ d small.1.1.1.0 fd ends.1.1.1.0,
            (check_end-ok regions _ s small.1.1.1.1.0 fs ends.1.1.1.1.0, tt),
          ),
        ),
      ),
    );
    aligned = (
      check_aligned-ok regions _ a fa pages.0,
      (
        check_aligned-ok regions _ d fd pages.1.0,
        (check_aligned-ok regions _ s fs pages.1.1.0, tt),
      ),
    );
    behind = swaps.0;
    one_page_more = swaps.1;
    apart =
        sort-AllApart _
          (Chain-AllApart _ (check_windows-Chain _ (sort-All-of IsSmall _ small) c.windows));
  }
    where
      ends : All (λ name. check_end regions name ≡ ok tt) partitions
      ends = for_each-ok (check_end regions) partitions c.ends

      pages :
          All
            (λ name. check_aligned regions name ≡ ok tt)
            (codes "ACTIVE" ∷ codes "DFU" ∷ codes "STATE" ∷ [])
      pages = for_each-ok (check_aligned regions) _ c.pages

      same_active : c.active ≡ a
      same_active = some_inj (sym (lookup-ok _ regions c.active c.active_found) ∙ fa)

      same_dfu : c.dfu ≡ d
      same_dfu = some_inj (sym (lookup-ok _ regions c.dfu c.dfu_found) ∙ fd)

      swaps : (d.origin ≡ a.origin + a.size) × (d.size ≡ a.size + 4096)
      swaps = check_dfu-ok a d small.1.1.0 (
          subst (λ x. check_dfu x d ≡ ok tt) same_active
            (subst (λ y. check_dfu c.active y ≡ ok tt) same_dfu c.swaps))
  Checked-IsLayout [] small h c = absurd h
  Checked-IsLayout (b ∷ []) small h c = absurd h.1
  Checked-IsLayout (b ∷ f ∷ []) small h c = absurd h.1.1
  Checked-IsLayout (b ∷ f ∷ a ∷ []) small h c = absurd h.1.1.1
  Checked-IsLayout (b ∷ f ∷ a ∷ d ∷ []) small h c = absurd h.1.1.1.1
  Checked-IsLayout (b ∷ f ∷ a ∷ d ∷ s ∷ x ∷ l) small h c = absurd h.1.1.1.1.1

-- If no expression of a memory map overflows an i64, so that it parses, and the end of no region and
-- no size with one page more overflows a u32, the build goes on only if the five partitions are there,
-- end by the end of the flash of 2 MiB and do not overlap; the active, the DFU and the state partition
-- consist of whole pages; the DFU partition lies right behind the active one and has one page more, as
-- a swap needs; and every linker symbol of the bootloader is named.
pub validate_lem :
    (text : Bytes) (regions : Regions)
    → parse_memory_x text ≡ ok regions
    → All (λ (r : Bytes × Region). IsSmall r.1) regions
    → validate text ≡ ok tt
    → IsLayout regions × All (λ symbol. contains symbol text ≡ true) symbols
unfolding validate
validate_lem text known parses small h =
    let (regions, parsed, h₁) = bind-ok (parse_memory_x text) _ tt h in
    let same : known ≡ regions = ok_inj {E = Panic} known regions (sym parses ∙ parsed) in
    let (_, present, h₂) = bind-ok (for_each (check_present regions) partitions) _ tt h₁ in
    let (_, ends, h₃) = bind-ok (for_each (check_end regions) partitions) _ tt h₂ in
    let (_, pages, h₄) = bind-ok (for_each (check_aligned regions) _) _ tt h₃ in
    let (active, ea, h₅) = bind-ok (lookup (codes "ACTIVE") regions) _ tt h₄ in
    let (dfu, ed, h₆) = bind-ok (lookup (codes "DFU") regions) _ tt h₅ in
    let (_, swaps, h₇) = bind-ok (check_dfu active dfu) _ tt h₆ in
    let (all, looked, h₈) = bind-ok (lookup_all partitions regions) _ tt h₇ in
    let (_, windows, h₉) = bind-ok (check_windows (sort all)) _ tt h₈ in
    let (_, named, _) =
      bind-ok (for_each (λ symbol. check (contains symbol text) missing_symbol) symbols) _ tt h₉ in
    (
      subst IsLayout (sym same) (
          Checked-IsLayout regions all
            (Looked-All regions IsSmall partitions all
              (find-All IsSmall regions
                (subst (All (λ (r : Bytes × Region). IsSmall r.1)) same small))
              (lookup_all-Looked regions partitions all looked))
            (lookup_all-Looked regions partitions all looked)
            (record {
              active = active;
              dfu = dfu;
              ends = ends;
              pages = pages;
              active_found = ea;
              dfu_found = ed;
              swaps = swaps;
              windows = windows;
            })),
      All-map
          (λ symbol (e : check (contains symbol text) missing_symbol ≡ ok tt).
            check-ok (contains symbol text) missing_symbol e)
          symbols
          (for_each-ok (λ symbol. check (contains symbol text) missing_symbol) symbols named),
    )
