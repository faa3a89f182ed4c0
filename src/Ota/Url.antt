-- ===== src/Ota/Url.antt =====
-- The update URL: `parse_url` and `parse_authority` of core/src/ota/mod.rs. The path buffer and its
-- length are the list of the bytes in use.
pub mod Sound
pub mod RoundTrip
use garagelight.Prelude.{
  ℕ, ◌+◌, ◌-◌, ◌*◌, ◌^◌, Bool, true, false, not, ◌&&◌, ◌||◌, List, [], ◌∷◌, ◌++◌, Option, none,
  some, ltb, ◌==◌, if◌then◌else◌, Bytes, codes, length, all, bytes_eq, is_empty,
  is_ascii_alphanumeric, rsplit_once, split,
}
use garagelight.Result.{Result, ok, err, ◌>>=◌, ok_or}
use garagelight.Decimal.{parse_uint}

abbrev pub path_bytes : ℕ
path_bytes = 192

pub data UrlError : Type 0 where
  scheme host port project path : UrlError

pub record Uri : Type 0 where
  pub tls : Bool
  pub host : Bytes
  pub port : ℕ
  pub path : Bytes

abbrev pub valid_host_byte : ℕ → Bool
valid_host_byte b = is_ascii_alphanumeric b || b == b'.' || b == b'-' || b == b'_'

unfoldable pub valid_segment : Bytes → Bool
valid_segment segment = not (is_empty segment) && all valid_host_byte segment

-- `split_once("://")`.
unfoldable pub split_scheme : Bytes → Option (Bytes × Bytes)
split_scheme (a ∷ b ∷ c ∷ s) =
    let later = split_scheme (b ∷ c ∷ s) in
    if a == b':' && b == b'/' && c == b'/'
    then some ([], s)
    else elim later [ none ↦ none | some (x, y) ↦ some (a ∷ x, y) ]
split_scheme _ = none

-- The text before the first `/`, and the rest from it on.
unfoldable pub split_path : Bytes → Bytes × Bytes
split_path [] = ([], [])
split_path (c ∷ s) =
    let (authority, prefix) = split_path s in
    if c == b'/' then ([], c ∷ s) else (c ∷ authority, prefix)

-- The scheme of a URL, as `tls`.
unfoldable pub parse_scheme : Bytes → Result UrlError Bool
parse_scheme s =
    if bytes_eq s (codes "https")
    then ok true
    else if bytes_eq s (codes "http")
    then ok false
    else err scheme

unfoldable pub parse_port : Bytes → Result UrlError ℕ
parse_port s = elim (parse_uint (2 ^ 16 - 1) s) [
  | none ↦ err port
  | some n ↦ if n == 0 then err port else ok n
]

unfoldable pub host_and_port : Bytes → Bool → Result UrlError (Bytes × ℕ)
unfolding parse_port
host_and_port authority tls = elim (rsplit_once b':' authority) [
  | some (name, text) ↦ parse_port text >>= λ number. ok (name, number)
  | none ↦ ok (authority, if tls then 443 else 80)
]

unfoldable pub checked_host : Bytes → ℕ → Result UrlError (Bytes × ℕ)
checked_host name number =
    if is_empty name || not (all valid_host_byte name) then err host else ok (name, number)

unfoldable pub parse_authority : Bytes → Bool → Result UrlError (Bytes × ℕ)
unfolding host_and_port checked_host
parse_authority authority tls = do
  (name, number) ← host_and_port authority tls
  checked_host name number

-- `filter(|s| !s.is_empty())`.
unfoldable pub non_empty : List Bytes → List Bytes
non_empty [] = []
non_empty (s ∷ ss) = if is_empty s then non_empty ss else s ∷ non_empty ss

-- The loop over the segments, with the path so far.
unfoldable pub push_segments : Bytes → List Bytes → Result UrlError Bytes
unfolding valid_segment
push_segments text [] = ok text
push_segments text (s ∷ ss) =
    let next = push_segments (text ++ (b'/' ∷ s)) ss in
    if ltb path_bytes (length text + 1 + length s) || not (valid_segment s) then err path else next

unfoldable pub parse_url : Bytes → Bytes → Result UrlError Uri
unfolding split_scheme split_path parse_scheme parse_authority non_empty push_segments
parse_url base last_segment = do
  (text, rest) ← ok_or (split_scheme base) scheme
  tls ← parse_scheme text
  checked ← (if valid_segment last_segment then ok tt else err project)
  let (authority, prefix) = split_path rest
  (name, number) ← parse_authority authority tls
  segments ← push_segments [] (non_empty (split b'/' prefix) ++ last_segment ∷ [])
  ok (record { tls = tls; host = name; port = number; path = segments })
