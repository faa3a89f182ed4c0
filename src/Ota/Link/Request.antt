-- ===== src/Ota/Link/Request.antt =====
-- The text of a request: `TextBuf` of app/src/ota/mod.rs and `build_request` of
-- app/src/ota/transport.rs. A buffer is the list of the bytes in use.
pub mod Text
use garagelight.Prelude.{
  ℕ, ◌+◌, not, ◌||◌, List, [], ◌∷◌, ◌++◌, none, some, ltb, if◌then◌else◌, Bytes, codes, length,
  take, replicate, is_empty, Option,
}
use garagelight.Result.{Result, ok, ok_or, ◌>>=◌}
use garagelight.Ota.Failure.{OtaError}
use garagelight.Ota.Base64.{basic_authorization}
use garagelight.Ota.Url.{Uri}

abbrev pub request_max_bytes : ℕ
request_max_bytes = 512

abbrev pub auth_max_bytes : ℕ
auth_max_bytes = 192

-- `TextBuf::write_str`, on a buffer of `n` bytes.
unfoldable pub write_str : ℕ → Bytes → Bytes → Option Bytes
write_str n buf s = if ltb n (length buf + length s) then none else some (buf ++ s)

-- `write!`, one piece after the other.
unfoldable pub write_pieces : ℕ → Bytes → List Bytes → Option Bytes
unfolding write_str
write_pieces n buf [] = some buf
write_pieces n buf (s ∷ ss) = elim (write_str n buf s) [
  | none ↦ none
  | some buf' ↦ write_pieces n buf' ss
]

-- The `Authorization` line, where there are credentials. What `basic_authorization` writes is
-- ASCII, which `from_utf8` accepts.
unfoldable pub write_auth : Bytes → Bytes → Bytes → Result OtaError Bytes
write_auth user password out =
    if not (is_empty user) || not (is_empty password)
    then (do
      (n, auth) ←
          ok_or (basic_authorization user password (replicate auth_max_bytes 0)) OtaError.auth
      ok_or
          (write_pieces request_max_bytes out
            (codes "Authorization: " ∷ take n auth ∷ codes "\r\n" ∷ []))
          OtaError.request)
    else ok out

unfoldable pub build_request : Bytes → Bytes → Uri → Bytes → Result OtaError Bytes
unfolding write_pieces write_auth
build_request user password uri name = do
  out ←
      ok_or
        (write_pieces request_max_bytes [] (
          codes "GET "
          ∷ uri.path
          ∷ codes "/"
          ∷ name
          ∷ codes " HTTP/1.0\r\nHost: "
          ∷ uri.host
          ∷ codes "\r\n"
          ∷ []))
        OtaError.request
  out' ← write_auth user password out
  ok_or (write_pieces request_max_bytes out' (codes "Connection: close\r\n\r\n" ∷ []))
      OtaError.request
