-- ===== src/Ota/Head/Line.antt =====
-- The two kinds of line of a response head: `parse_status` and `parse_header` of
-- core/src/ota/http.rs.
use garagelight.Prelude.{
  ℕ, ◌+◌, ◌-◌, ◌*◌, ◌^◌, Bool, true, false, not, ◌||◌, List, [], ◌∷◌, Option, none, some, ltb,
  if◌then◌else◌, Bytes, codes, drop, all, is_ascii_digit, split, split_once, starts_with, is_empty,
  eq_ignore_ascii_case,
}
use garagelight.Ota.Text.{trim_ascii, checked_mul, checked_add}
use garagelight.Result.{Result, ok, err, ok_or, ◌>>=◌}

pub data HeadError : Type 0 where
  malformed_status_line too_few_status_tokens non_numeric_status unexpected_status : HeadError
  transfer_encoding missing_content_length duplicate_content_length : HeadError
  malformed_header oversized_header : HeadError

pub record HeaderUpdate : Type 0 where
  pub transfer_encoding : Bool
  pub content_length : Option ℕ

abbrev pub u16_max : ℕ
u16_max = 2 ^ 16 - 1

abbrev pub u64_max : ℕ
u64_max = 2 ^ 64 - 1

-- The number of parts that are not empty.
count_tokens : List Bytes → ℕ
count_tokens [] = 0
count_tokens (p ∷ ps) = (if is_empty p then 0 else 1) + count_tokens ps

-- The digit loop of `parse_status`, on digits.
status_value : ℕ → Bytes → Result HeadError ℕ
status_value value [] = ok value
status_value value (d ∷ ds) =
    let next = value * 10 + (d - b'0') in
    let rest = status_value next ds in if ltb u16_max next then err non_numeric_status else rest

-- The text up to the first space, or all of it.
up_to_space : Bytes → Bytes
up_to_space s = elim (split_once b' ' s) [ some (a, _) ↦ a | none ↦ s ]

unfoldable pub parse_status : Bytes → Result HeadError ℕ
unfolding count_tokens status_value up_to_space
parse_status line =
    if not (starts_with (codes "HTTP/1.0 ") line || starts_with (codes "HTTP/1.1 ") line)
    then err malformed_status_line
    else if ltb (count_tokens (split b' ' line)) 3
    then err too_few_status_tokens
    else (let code = up_to_space (drop 9 line) in
        if is_empty code || not (all is_ascii_digit code)
        then err non_numeric_status
        else status_value 0 code)

-- The loop over the value of `Content-Length`.
length_value : ℕ → Bytes → Result HeadError ℕ
length_value parsed [] = ok parsed
length_value parsed (d ∷ ds) = if not (is_ascii_digit d) then err malformed_header else (do
  v ← ok_or (checked_mul u64_max parsed 10) malformed_header
  v' ← ok_or (checked_add u64_max v (d - b'0')) malformed_header
  length_value v' ds)

abbrev quiet : HeaderUpdate
quiet = record { transfer_encoding = false; content_length = none }

header_update : Bytes → Bytes → Result HeadError HeaderUpdate
unfolding length_value
header_update name value =
    if eq_ignore_ascii_case name (codes "transfer-encoding")
    then ok (record quiet { transfer_encoding = true })
    else if eq_ignore_ascii_case name (codes "content-length")
    then (if is_empty value
        then err malformed_header
        else (do parsed ← length_value 0 value; ok (record quiet { content_length = some parsed })))
    else ok quiet

unfoldable pub parse_header : Bytes → Result HeadError HeaderUpdate
unfolding header_update
parse_header line = do
  (name, value) ← ok_or (split_once b':' line) malformed_header
  header_update (trim_ascii name) (trim_ascii value)
