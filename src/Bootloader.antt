-- ===== src/Bootloader.antt =====
-- The build script of the bootloader, bootloader/build.rs: the check of the memory map. What stops
-- the build is a value of `Panic`. A text is ASCII.
pub mod Comments
pub mod Strip
pub mod Expr
pub mod Memory
pub mod Partition
pub mod Layout
unfoldable pub use garagelight.Prelude.Trim.{is_whitespace, trim_start, trim_end, trim}
use garagelight.Prelude.{
  ℕ, zero, suc, ◌+◌, ◌-◌, Bool, true, false, ◌&&◌, ◌||◌, List, [], ◌∷◌, ◌++◌, Option, none, some,
  leb, ◌==◌, if◌then◌else◌, Bytes, length, drop, starts_with, is_empty, split,
}

pub data Panic : Type 0 where
  no_memory_block bad_term overflow : Panic
  missing_region past_end unaligned_origin unaligned_length dfu_origin dfu_length overlap : Panic
  missing_symbol absolute_symbol : Panic

-- str::split_once at a text that is not empty.
unfoldable pub split_once_text : Bytes → Bytes → Option (Bytes × Bytes)
split_once_text pat [] = none
split_once_text pat (c ∷ s) =
    let later = split_once_text pat s in
    if starts_with pat (c ∷ s)
    then some ([], drop (length pat) (c ∷ s))
    else elim later [ none ↦ none | some (a, b) ↦ some (c ∷ a, b) ]

-- str::contains, of a text that is not empty.
unfoldable pub contains : Bytes → Bytes → Bool
contains pat [] = false
contains pat (c ∷ s) = starts_with pat (c ∷ s) || contains pat s

-- A line without a carriage return at its end.
unfoldable pub chomp : Bytes → Bytes
chomp [] = []
chomp (c ∷ s) = let rest = chomp s in if c == 13 && is_empty s then [] else c ∷ rest

-- A last line that is empty is none, and keeps its carriage return.
unfoldable pub lines_of : List Bytes → List Bytes
unfolding chomp
lines_of [] = []
lines_of (l ∷ []) = if is_empty l then [] else l ∷ []
lines_of (l ∷ m ∷ ls) = chomp l ∷ lines_of (m ∷ ls)

-- str::lines
unfoldable pub lines : Bytes → List Bytes
unfolding lines_of
lines s = lines_of (split 10 s)
