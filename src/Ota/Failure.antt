-- ===== src/Ota/Failure.antt =====
-- Why an update check did not complete: the error types of app/src/ota/mod.rs, and the names of the
-- errors of the head parser and the session (app/src/ota/transport.rs, app/src/ota/task.rs).
use garagelight.Prelude.{
  ◌+◌, suc, ℕ, ◌≡◌, refl, ◌∙◌, sym, arith, Bytes, codes, bytes_eq, if◌then◌else◌,
}
use garagelight.Ota.Head.Line.{
  HeadError, malformed_status_line, too_few_status_tokens, non_numeric_status, unexpected_status,
  transfer_encoding, missing_content_length, duplicate_content_length, malformed_header,
  oversized_header,
}
use garagelight.Ota.Session.{UpdateError, oversize, too_short, too_long, hash_mismatch, flash}

pub data FetchError : Type 0 where
  timeout write flush read closed leftover body_too_large : FetchError
  head : Bytes → FetchError

unfoldable pub fetch_code : FetchError → Bytes
fetch_code timeout = codes "timeout"
fetch_code write = codes "write"
fetch_code flush = codes "flush"
fetch_code read = codes "read"
fetch_code closed = codes "closed"
fetch_code (head code) = code
fetch_code leftover = codes "leftover"
fetch_code body_too_large = codes "body_too_large"

pub data OtaError : Type 0 where
  url dns connect tls timeout request auth head version sha : OtaError
  transport : FetchError → OtaError
  update : Bytes → OtaError

unfoldable pub code : OtaError → Bytes
unfolding fetch_code
code OtaError.url = codes "url"
code OtaError.dns = codes "dns"
code OtaError.connect = codes "connect"
code OtaError.tls = codes "tls"
code OtaError.timeout = codes "timeout"
code OtaError.request = codes "request"
code OtaError.auth = codes "auth"
code OtaError.head = codes "head"
code OtaError.version = codes "version"
code OtaError.sha = codes "sha"
code (OtaError.transport error) = fetch_code error
code (OtaError.update text) = text

unfoldable pub update_blinks : Bytes → ℕ
update_blinks text =
    if bytes_eq text (codes "hash_mismatch")
    then 7
    else if bytes_eq text (codes "too_short")
    then 8
    else if bytes_eq text (codes "too_long")
    then 9
    else if bytes_eq text (codes "flash")
    then 10
    else if bytes_eq text (codes "read")
    then 11
    else if bytes_eq text (codes "oversize")
    then 12
    else 7

unfoldable pub fetch_blinks : FetchError → ℕ
fetch_blinks timeout = 14
fetch_blinks write = 15
fetch_blinks flush = 16
fetch_blinks read = 17
fetch_blinks closed = 18
fetch_blinks leftover = 19
fetch_blinks body_too_large = 20
fetch_blinks (head _) = 21

unfoldable pub blink_code : OtaError → ℕ
unfolding update_blinks fetch_blinks
blink_code OtaError.dns = 1
blink_code OtaError.connect = 2
blink_code OtaError.tls = 3
blink_code OtaError.timeout = 4
blink_code OtaError.url = 5
blink_code OtaError.request = 5
blink_code OtaError.auth = 5
blink_code OtaError.head = 5
blink_code OtaError.version = 5
blink_code OtaError.sha = 6
blink_code (OtaError.update text) = update_blinks text
blink_code (OtaError.transport error) = fetch_blinks error

unfoldable pub head_code : HeadError → Bytes
head_code malformed_status_line = codes "malformed_status"
head_code too_few_status_tokens = codes "too_few_status_tokens"
head_code non_numeric_status = codes "non_numeric_status"
head_code unexpected_status = codes "unexpected_status"
head_code transfer_encoding = codes "transfer_encoding"
head_code missing_content_length = codes "missing_content_length"
head_code duplicate_content_length = codes "duplicate_content_length"
head_code malformed_header = codes "malformed_header"
head_code oversized_header = codes "oversized_header"

unfoldable pub update_code : {F R : Type 0} → UpdateError F R → Bytes
update_code (oversize length capacity) = codes "oversize"
update_code too_short = codes "too_short"
update_code too_long = codes "too_long"
update_code hash_mismatch = codes "hash_mismatch"
update_code (flash e) = codes "flash"
update_code (UpdateError.read e) = codes "read"

-- The stage of a session that failed, by its number in the reports.
abbrev pub stage : {F R : Type 0} → UpdateError F R → ℕ
stage hash_mismatch = 0
stage too_short = 1
stage too_long = 2
stage (flash e) = 3
stage (UpdateError.read e) = 4
stage (oversize length capacity) = 5

blink_code-stage :
    {F R : Type 0} (e : UpdateError F R)
    → blink_code (OtaError.update (update_code e)) ≡ suc 6 + stage e
unfolding blink_code update_blinks update_code bytes_eq
blink_code-stage (oversize length capacity) = refl
blink_code-stage too_short = refl
blink_code-stage too_long = refl
blink_code-stage hash_mismatch = refl
blink_code-stage (flash e) = refl
blink_code-stage (UpdateError.read e) = refl

-- The blinks after a failed session tell its six kinds of failure apart, whatever the lengths and
-- the errors inside them.
pub blink_code-update_code :
    {F R : Type 0} (e e' : UpdateError F R)
    → blink_code (OtaError.update (update_code e)) ≡ blink_code (OtaError.update (update_code e'))
    → stage e ≡ stage e'
blink_code-update_code e e' h =
    let s = sym (blink_code-stage e) ∙ h ∙ blink_code-stage e' in omega (arith, s)
