-- ===== src/Bootloader/Memory.antt =====
-- `parse_memory_x` and `validate` of bootloader/build.rs. The map of the regions is a list, the newest
-- entry first.
use garagelight.Prelude.{
  ℕ, ◌+◌, ◌*◌, ◌%◌, ◌^◌, Bool, true, false, not, ◌&&◌, List, [], ◌∷◌, Option, none, some, ltb, leb,
  ◌==◌, if◌then◌else◌, Bytes, codes, bytes_eq, starts_with, is_empty, split, split_once,
}
use garagelight.Result.{Result, ok, err, ◌>>=◌, ok_or}
use garagelight.Bootloader.{
  Panic, no_memory_block, missing_region, past_end, unaligned_origin, unaligned_length, dfu_origin,
  dfu_length, overlap, missing_symbol, absolute_symbol, trim, split_once_text, contains, lines,
}
use garagelight.Bootloader.Comments.{strip_comments}
use garagelight.Bootloader.Expr.{eval_expr}

abbrev pub flash_end : ℕ
flash_end = 0x1000_0000 + 2 * 1024 * 1024

abbrev pub page_bytes : ℕ
page_bytes = 4096

abbrev pub partitions : List Bytes
partitions = codes "BOOT2" ∷ codes "FLASH" ∷ codes "ACTIVE" ∷ codes "DFU" ∷ codes "STATE" ∷ []

abbrev pub symbols : List Bytes
symbols =
    codes "__bootloader_state_start"
    ∷ codes "__bootloader_state_end"
    ∷ codes "__bootloader_active_start"
    ∷ codes "__bootloader_active_end"
    ∷ codes "__bootloader_dfu_start"
    ∷ codes "__bootloader_dfu_end"
    ∷ []

pub record Region : Type 0 where
  pub origin : ℕ
  pub size : ℕ

abbrev pub Regions : Type 0
Regions = List (Bytes × Region)

unfoldable pub find : Bytes → Regions → Option Region
find name [] = none
find name ((key, region) ∷ rest) = if bytes_eq key name then some region else find name rest

-- `split(',').next().unwrap()`
abbrev pub first_part : List Bytes → Bytes
first_part [] = []
first_part (p ∷ _) = p

unfoldable pub value_after : Bytes → Bytes → Result Panic (Option ℕ)
value_after rest key = elim (split_once_text key rest) [
  | none ↦ ok none
  | some (_, behind) ↦ elim (split_once b'=' behind) [
    | none ↦ ok none
    | some (_, expr) ↦ eval_expr (first_part (split b',' expr)) >>= λ value. ok (some value)
  ]
]

-- The region of a line behind its name, if it has both values.
unfoldable pub region_of : Bytes → Result Panic (Option Region)
unfolding value_after
region_of rest = value_after rest (codes "ORIGIN") >>= λ found. elim found [
  | none ↦ ok none
  | some origin ↦ value_after rest (codes "LENGTH") >>= λ found'. elim found' [
    | none ↦ ok none
    | some size ↦ ok (some (record { origin = origin; size = size }))
  ]
]

unfoldable pub parse_line : Bytes → Regions → Result Panic Regions
unfolding region_of
parse_line line regions = elim (split_once b':' line) [
  | none ↦ ok regions
  | some (name, rest) ↦ elim (is_empty (trim name)) [
    | true ↦ ok regions
    | false ↦ region_of rest >>= λ found. elim found [
      | none ↦ ok regions
      | some region ↦ ok ((trim name, region) ∷ regions)
    ]
  ]
]

unfoldable pub parse_lines : List Bytes → Regions → Result Panic Regions
unfolding parse_line
parse_lines [] regions = ok regions
parse_lines (l ∷ later) regions = elim (parse_line l regions) [
  | err e ↦ err e
  | ok regions' ↦ parse_lines later regions'
]

-- The text between the braces of the MEMORY block.
unfoldable pub memory_block : Bytes → Option Bytes
memory_block text = elim (split_once_text (codes "MEMORY") text) [
  | none ↦ none
  | some (_, rest) ↦ elim (split_once b'{' rest) [
    | none ↦ none
    | some (_, inner) ↦ elim (split_once b'}' inner) [ none ↦ none | some (body, _) ↦ some body ]
  ]
]

unfoldable pub parse_memory_x : Bytes → Result Panic Regions
unfolding memory_block parse_lines
parse_memory_x text = ok_or (memory_block (strip_comments text)) no_memory_block >>= λ body.
    parse_lines (lines body) []

-- `+` on u32, which wraps in the release profile.
unfoldable pub add_u32 : ℕ → ℕ → ℕ
add_u32 a b = (a + b) % 2 ^ 32

-- A `for` loop whose body may stop the build.
unfoldable pub for_each {ℓ} : {A : Type ℓ} → (A → Result Panic Unit) → List A → Result Panic Unit
for_each body [] = ok tt
for_each body (a ∷ later) = elim (body a) [ err e ↦ err e | ok _ ↦ for_each body later ]

abbrev pub check : Bool → Panic → Result Panic Unit
check b e = if b then ok tt else err e

-- `regions[name]`
abbrev pub lookup : Bytes → Regions → Result Panic Region
lookup name regions = ok_or (find name regions) missing_region

unfoldable pub check_present : Regions → Bytes → Result Panic Unit
check_present regions name = lookup name regions >>= λ _. ok tt

unfoldable pub check_end : Regions → Bytes → Result Panic Unit
unfolding add_u32
check_end regions name =
    lookup name regions >>= λ r. check (not (ltb flash_end (add_u32 r.origin r.size))) past_end

unfoldable pub check_aligned : Regions → Bytes → Result Panic Unit
check_aligned regions name = lookup name regions >>= λ r.
    check (r.origin % page_bytes == 0) unaligned_origin >>= λ _.
    check (r.size % page_bytes == 0) unaligned_length

unfoldable pub check_dfu : Region → Region → Result Panic Unit
unfolding add_u32
check_dfu active dfu = check (dfu.origin == add_u32 active.origin active.size) dfu_origin >>= λ _.
    check (dfu.size == add_u32 active.size page_bytes) dfu_length

-- `sort_by_key` of the origin: stable.
unfoldable pub insert : Region → List Region → List Region
insert r [] = r ∷ []
insert r (s ∷ later) =
    let rest = insert r later in if leb r.origin s.origin then r ∷ s ∷ later else s ∷ rest

unfoldable pub sort : List Region → List Region
unfolding insert
sort [] = []
sort (r ∷ later) = insert r (sort later)

-- The loop over `windows(2)`.
unfoldable pub check_windows : List Region → Result Panic Unit
unfolding add_u32
check_windows [] = ok tt
check_windows (r ∷ []) = ok tt
check_windows (r ∷ s ∷ later) =
    let rest = check_windows (s ∷ later) in
    check (not (ltb s.origin (add_u32 r.origin r.size))) overlap >>= λ _. rest

unfoldable pub lookup_all : List Bytes → Regions → Result Panic (List Region)
lookup_all [] regions = ok []
lookup_all (name ∷ later) regions =
    let rest = lookup_all later regions in lookup name regions >>= λ r. rest >>= λ rs. ok (r ∷ rs)

unfoldable pub check_line : Bytes → Result Panic Unit
check_line line =
    let l = trim line in
    check (not (starts_with (codes "__bootloader_") l && not (contains (codes "ORIGIN(") l)))
      absolute_symbol

unfoldable pub validate : Bytes → Result Panic Unit
unfolding check_present check_end check_aligned check_dfu sort check_windows lookup_all check_line
validate text = parse_memory_x text >>= λ regions.
    for_each (check_present regions) partitions >>= λ _.
    for_each (check_end regions) partitions >>= λ _.
    for_each (check_aligned regions) (codes "ACTIVE" ∷ codes "DFU" ∷ codes "STATE" ∷ []) >>= λ _.
    lookup (codes "ACTIVE") regions >>= λ active. lookup (codes "DFU") regions >>= λ dfu.
    check_dfu active dfu >>= λ _. lookup_all partitions regions >>= λ all.
    check_windows (sort all) >>= λ _.
    for_each (λ symbol. check (contains symbol text) missing_symbol) symbols >>= λ _.
    for_each check_line (lines text)
