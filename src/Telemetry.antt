-- ===== src/Telemetry.antt =====
-- The telemetry policy: core/src/telemetry.rs. A buffer is the list of the bytes written to it; a
-- failed write leaves what it may.
pub mod Payload
pub mod Task
pub mod Broker
use garagelight.Prelude.{
  ℕ, suc, ◌+◌, ◌-◌, ◌*◌, ◌^◌, Bool, true, false, not, ◌&&◌, ◌||◌, List, [], ◌∷◌, ◌++◌, Option, none,
  some, ◌>>=◌, ltb, leb, ◌==◌, if◌then◌else◌, Bytes, codes, length, drop, all, bytes_eq, is_empty,
  is_ascii_digit, rsplit_once, split, starts_with, ℤ, pos, negsuc,
}
use garagelight.Decimal.{decimal, value, parse_uint}
use garagelight.Sensor.{Sample}

abbrev pub broker_port : ℕ
broker_port = 1883

abbrev pub reset_topic : Bytes
reset_topic = codes "garagelight/reset"

abbrev pub max_sample_payload : ℕ
max_sample_payload = 54

pub data Inbound : Type 0 where
  ignore request_update : Inbound

unfoldable pub classify_inbound : Bytes → Inbound
classify_inbound topic = if bytes_eq topic reset_topic then request_update else ignore

-- `Display` of an `i8`.
abbrev pub signed : ℤ → Bytes
signed (pos n) = decimal n
signed (negsuc n) = b'-' ∷ decimal (suc n)

-- `SliceWriter::write_str` on a slice of `size` bytes.
unfoldable pub write_str : ℕ → Bytes → Bytes → Option Bytes
write_str size buf s = if ltb size (length buf + length s) then none else some (buf ++ s)

-- `write!`, one piece after the other.
unfoldable pub write_pieces : ℕ → Bytes → List Bytes → Option Bytes
unfolding write_str
write_pieces size buf [] = some buf
write_pieces size buf (s ∷ ss) = elim (write_str size buf s) [
  | none ↦ none
  | some buf' ↦ write_pieces size buf' ss
]

-- The bytes written; the source returns how many there are.
unfoldable pub encode_sample : Sample → ℕ → ℕ → Option Bytes
unfolding write_pieces
encode_sample sample version size = write_pieces size [] (
    codes "{\"temp\": "
    ∷ signed sample.temperature
    ∷ codes ", \"humidity\": "
    ∷ decimal sample.relative_humidity
    ∷ codes ", \"version\": "
    ∷ decimal version
    ∷ codes "}"
    ∷ [])

-- `strip_prefix("mqtt://").unwrap_or(value)`.
unfoldable pub strip_scheme : Bytes → Bytes
strip_scheme s = if starts_with (codes "mqtt://") s then drop 7 s else s

-- One part of `parse::<Ipv4Addr>`: one to three digits, no zero before another digit, up to 255.
unfoldable pub octet : Bytes → Option ℕ
octet [] = none
octet (c ∷ s) =
    if not (all is_ascii_digit (c ∷ s)) || ltb 3 (length (c ∷ s)) || c == b'0' && not (is_empty s)
    then none
    else if ltb 255 (value 0 (c ∷ s))
    then none
    else some (value 0 (c ∷ s))

-- The four parts of an address.
pub record Ipv4 : Type 0 where
  pub a : ℕ
  pub b : ℕ
  pub c : ℕ
  pub d : ℕ

unfoldable pub four : List Bytes → Option Ipv4
unfolding octet
four (p ∷ q ∷ r ∷ s ∷ []) = do
  a ← octet p
  b ← octet q
  c ← octet r
  d ← octet s
  some (record { a = a; b = b; c = c; d = d })
four _ = none

-- `parse::<Ipv4Addr>`.
unfoldable pub parse_ipv4 : Bytes → Option Ipv4
unfolding four
parse_ipv4 s = four (split b'.' s)

unfoldable pub split_port : Bytes → Option (Bytes × ℕ)
split_port rest = elim (rsplit_once b':' rest) [
  | none ↦ some (rest, broker_port)
  | some (host, text) ↦ parse_uint (2 ^ 16 - 1) text >>= λ port. some (host, port)
]

unfoldable pub parse_broker : Bytes → Option (Ipv4 × ℕ)
unfolding strip_scheme split_port parse_ipv4
parse_broker text = do
  (host, port) ← split_port (strip_scheme text)
  if port == 0 then none else parse_ipv4 host >>= λ address. some (address, port)
