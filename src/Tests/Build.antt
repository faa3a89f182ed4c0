-- ===== src/Tests/Build.antt =====
-- The memory map of the bootloader.
use garagelight.Prelude.{
  ◌^◌, ◌<◌, ℕ, some, false, ◌≡◌, refl, true, List, [], ◌∷◌, ◌++◌, arith, Bytes, codes, All,
  bytes_eq, starts_with, is_empty, split, split_once,
}
use garagelight.Result.{ok}
use garagelight.Bootloader.{
  trim_start, trim_end, trim, split_once_text, contains, chomp, lines_of, lines,
}
use garagelight.Decimal.{decimal, parse_digits, parse_uint}
use garagelight.Version.{build_version}
use garagelight.Version.Same.{version-build, version-decimal}
use garagelight.Ota.Text.{parse_version, skip, decide}
use garagelight.Bootloader.Comments.{strip, strip_comments}
use garagelight.Bootloader.Strip.{
  Piece, plain, block_comment, line_comment, print, code_of, strip_comments-print,
}
use garagelight.Bootloader.Expr.{
  digits, from_radix, split_last, scaled, digits_value, parse_term, plus, less, end_term, push_char,
  eval_loop, eval_expr,
}
use garagelight.Bootloader.Expr.{as_u32}
use garagelight.Bootloader.Expr.Value.{one, kilo}
use garagelight.Bootloader.Expr.Value.Words.{Term, added, subtracted, diff}
use garagelight.Bootloader.Expr.Value.Terms.{eval_expr-print}
use garagelight.Bootloader.Memory.{
  Regions, find, value_after, region_of, parse_line, parse_lines, memory_block, parse_memory_x,
  Region, add_u32, for_each, check_present, check_end, check_aligned, check_dfu, insert, sort,
  check_windows, lookup_all, check_line, validate, symbols,
}
use garagelight.Bootloader.Layout.{IsLayout, validate_lem}

abbrev text_of : List Bytes → Bytes
text_of [] = []
text_of (l ∷ ls) = l ++ (10 ∷ text_of ls)

-- bootloader/memory.x, with a shorter comment.
abbrev memory_x : Bytes
memory_x = text_of (
    codes "/* Bootloader memory map, ORIGIN(BOOT2) */"
    ∷ codes "MEMORY {"
    ∷ codes "    BOOT2  : ORIGIN = 0x10000000, LENGTH = 0x100"
    ∷ codes "    FLASH  : ORIGIN = 0x10000100, LENGTH = 24K - 0x100"
    ∷ codes "    ACTIVE : ORIGIN = 0x10006000, LENGTH = 780K"
    ∷ codes "    DFU    : ORIGIN = 0x100C9000, LENGTH = 784K"
    ∷ codes "    STATE  : ORIGIN = 0x1018D000, LENGTH = 4K"
    ∷ codes "    RAM    : ORIGIN = 0x20000000, LENGTH = 264K"
    ∷ codes "}"
    ∷ codes "__bootloader_state_start = ORIGIN(STATE) - ORIGIN(BOOT2);"
    ∷ codes "__bootloader_state_end = ORIGIN(STATE) + LENGTH(STATE) - ORIGIN(BOOT2);"
    ∷ codes "__bootloader_active_start = ORIGIN(ACTIVE) - ORIGIN(BOOT2);"
    ∷ codes "__bootloader_active_end = ORIGIN(ACTIVE) + LENGTH(ACTIVE) - ORIGIN(BOOT2);"
    ∷ codes "__bootloader_dfu_start = ORIGIN(DFU) - ORIGIN(BOOT2);"
    ∷ codes "__bootloader_dfu_end = ORIGIN(DFU) + LENGTH(DFU) - ORIGIN(BOOT2);"
    ∷ [])

accepted : validate memory_x ≡ ok tt
unfolding trim_start trim_end trim split_once_text contains chomp lines_of lines strip
    strip_comments digits from_radix split_last scaled digits_value parse_term plus less end_term
    push_char eval_loop eval_expr find value_after region_of parse_line parse_lines memory_block
    parse_memory_x add_u32 for_each check_present check_end check_aligned check_dfu insert sort
    check_windows lookup_all check_line validate bytes_eq starts_with is_empty split split_once
accepted = refl

abbrev placed : ℕ → ℕ → Region
placed a n = record { origin = a; size = n }

-- The newest entry first.
abbrev map_regions : Regions
map_regions =
    (codes "RAM", placed 0x20000000 270_336)
    ∷ (codes "STATE", placed 0x1018D000 4096)
    ∷ (codes "DFU", placed 0x100C9000 802_816)
    ∷ (codes "ACTIVE", placed 0x10006000 798_720)
    ∷ (codes "FLASH", placed 0x10000100 24_320)
    ∷ (codes "BOOT2", placed 0x10000000 256)
    ∷ []

parsed : parse_memory_x memory_x ≡ ok map_regions
unfolding trim_start trim_end trim split_once_text contains chomp lines_of lines strip
    strip_comments digits from_radix split_last scaled digits_value parse_term plus less end_term
    push_char eval_loop eval_expr find value_after region_of parse_line parse_lines memory_block
    parse_memory_x add_u32 for_each check_present check_end check_aligned check_dfu insert sort
    check_windows lookup_all check_line validate bytes_eq starts_with is_empty split split_once
parsed = refl

validate_lem_example :
    IsLayout map_regions × All (λ symbol. contains symbol memory_x ≡ true) symbols
validate_lem_example =
    validate_lem memory_x map_regions parsed
      (
        (omega arith, omega arith),
        (
          (omega arith, omega arith),
          (
            (omega arith, omega arith),
            (
              (omega arith, omega arith),
              ((omega arith, omega arith), ((omega arith, omega arith), tt)),
            ),
          ),
        ),
      )
      accepted

abbrev commented : List Piece
commented =
    plain (codes "a / b ") ∷ block_comment (codes "* /* c *") ∷ line_comment (codes "d */") ∷ []

strip_comments-print_example : strip_comments (print commented) ≡ code_of commented
strip_comments-print_example = strip_comments-print commented (omega arith)

-- `24K - 256`, with a sign first.
abbrev remainder : List Term
remainder =
    record { minus = false; number = 24; scale = kilo }
    ∷ record { minus = true; number = 256; scale = one }
    ∷ []

eval_expr-print_example :
    eval_expr (garagelight.Bootloader.Expr.Value.Words.print remainder)
    ≡ ok (as_u32 (diff (added remainder) (subtracted remainder)))
eval_expr-print_example = eval_expr-print remainder (omega arith)

abbrev version_file : Bytes
version_file = codes " 42" ++ (10 ∷ [])

built : build_version version_file ≡ some (codes "42")
unfolding build_version trim trim_start trim_end parse_uint parse_digits decimal is_empty
built = refl

version-build_example :
    (n : ℕ) × (n < 2 ^ 32)
    × (codes "42" ≡ decimal n)
    × (garagelight.Version.version version_file ≡ some n)
version-build_example = version-build version_file (codes "42") built

version-decimal_example :
    (garagelight.Version.version ((32 ∷ []) ++ (decimal 42 ++ (10 ∷ []))) ≡ some 42)
    × (parse_version ((32 ∷ []) ++ (decimal 42 ++ (10 ∷ []))) ≡ some 42)
    × (decide 42 42 ≡ skip)
version-decimal_example = version-decimal 42 (32 ∷ []) (10 ∷ []) (omega arith) (refl, tt) (refl, tt)
