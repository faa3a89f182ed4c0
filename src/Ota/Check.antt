-- ===== src/Ota/Check.antt =====
-- One update check: `check_and_update` of app/src/ota/task.rs. A step takes the state of the world,
-- and gives a result and the new state; `none` means that a loop's fuel ran out. The configuration
-- stands for the constants that a build sets.
pub mod Board
pub mod Body
pub mod Steps
pub mod Asked
pub mod Streamed
pub mod Safe
use garagelight.Prelude.{
  ℕ, Bool, true, false, not, [], ◌∷◌, ◌++◌, Option, none, some, ltb, ◌==◌, if◌then◌else◌, Bytes,
  codes,
}
use garagelight.Result.{Result, ok, err, ok_or, map_err}
use garagelight.Decimal.{decimal}
use garagelight.Ota.Failure.{FetchError, OtaError, blink_code, update_code}
use garagelight.Ota.Head.{ResponseHead}
use garagelight.Ota.Link.{Net, resolve, open_link, get, read_small, body_read, as_usize}
use garagelight.Ota.Link.Request.{build_request, write_pieces}
use garagelight.Ota.Session.{Device, Sha256, UpdateError, apply_update}
use garagelight.Ota.Text.{parse_version, parse_sha256_hex, Decision, update, skip, decide}
use garagelight.Ota.Url.{Uri, parse_url}

abbrev pub version_max_bytes : ℕ
version_max_bytes = 64

abbrev pub sha_max_bytes : ℕ
sha_max_bytes = 128

abbrev pub name_max_bytes : ℕ
name_max_bytes = 48

pub record Config : Type 0 where
  pub version : ℕ
  pub ota_url : Bytes
  pub ota_project : Bytes
  pub ota_user : Bytes
  pub ota_password : Bytes

-- The flash of `update::Updater`.
pub record Updater (World : Type 0) : Type 0 where
  pub write : ℕ → Bytes → World → Result Unit Unit × World
  pub mark_updated : World → Result Unit Unit × World

-- A check returns, or it ends in a reset of the chip.
pub data Checked : Type 0 where
  returned reset : Checked

abbrev pub Step : Type 0 → Type 0 → Type 0
Step World A = World → Option (Result OtaError A × World)

abbrev pub and_then :
    {World A B : Type 0}
    → Option (Result OtaError A × World)
    → (A → Step World B)
    → Option (Result OtaError B × World)
and_then none f = none
and_then (some (err e, w)) f = some (err e, w)
and_then (some (ok a, w)) f = f a w

-- `?` on the result of a step.
infixl 5 ◌>>=◌
unfoldable pub ◌>>=◌ : {World A B : Type 0} → Step World A → (A → Step World B) → Step World B
(m >>= f) w = and_then (m w) f

-- The errors of the connection, as those of the check.
abbrev pub with_errors :
    {World E A : Type 0}
    → (E → OtaError)
    → Option (Result E A × World)
    → Option (Result OtaError A × World)
with_errors f none = none
with_errors f (some (r, w)) = some (map_err f r, w)

abbrev pub disconnected : {World A : Type 0} → Option (A × (Bytes × World)) → Option (A × World)
disconnected none = none
disconnected (some (a, (_, w))) = some (a, w)

unfoldable pub now : {World A : Type 0} → Result OtaError A → Step World A
now r w = some (r, w)

pub map_ok : {E A : Type 0} → Result E A → Result E (Option A)
map_ok (ok a) = ok (some a)
map_ok (err e) = err e

-- A `TextBuf` with a version and an ending.
unfoldable pub file_name : ℕ → Bytes → Result OtaError Bytes
file_name remote ending =
    ok_or (write_pieces name_max_bytes [] (decimal remote ∷ ending ∷ [])) OtaError.request

module _ {World Hasher : Type 0} (net : Net World) (updater : Updater World) (sha : Sha256 Hasher)
    (config : Config) (fuel : ℕ) where
  -- The flasher and the body of a session: the updater, and `HttpBody` over the connection.
  abbrev pub device : Bool → Device (Bytes × World) Unit FetchError
  device tls = record {
    read = body_read net tls;
    write = λ offset piece s. let (r, w') = updater.write offset piece s.1 in (r, (s.0, w'));
    mark_updated = λ s. let (r, w') = updater.mark_updated s.1 in (r, (s.0, w'));
  }

  -- Open a connection, and send a request: the connection, the head, and the bytes behind it.
  unfoldable pub exchange : Uri → ℕ × ℕ → Bytes → Step World (Bool × ResponseHead × Bytes)
  exchange uri endpoint name = do
    request ← now (build_request config.ota_user config.ota_password uri name)
    tls ← (λ w. some (open_link net endpoint uri w))
    (head, rest) ← (λ w. with_errors OtaError.transport (get net fuel tls request w))
    now (ok (tls, head, rest))

  -- A short text, or `none` where the server has none: the check then returns Ok.
  unfoldable pub fetch_body : Bool × ResponseHead × Bytes → ℕ → Step World (Option Bytes)
  fetch_body (tls, head, rest) capacity = do
    len ← now (ok_or head.content_length OtaError.head)
    checked ← now (if ltb capacity (as_usize net len) then err OtaError.head else ok tt)
    body ← (λ w. with_errors OtaError.transport (read_small net fuel tls rest len capacity w))
    now (ok (some body))

  unfoldable pub fetch_text : Uri → ℕ × ℕ → Bytes → ℕ → Step World (Option Bytes)
  unfolding exchange fetch_body
  fetch_text uri endpoint name capacity = do
    (tls, head, rest) ← exchange uri endpoint name
    elim (head.status == 200) [
      | false ↦ now (ok none)
      | true ↦ fetch_body (tls, head, rest) capacity
    ]

  -- The first stage: the version on the server.
  unfoldable pub fetch_version : Uri → ℕ × ℕ → Step World (Option ℕ)
  unfolding fetch_text
  fetch_version uri endpoint = do
    text ← fetch_text uri endpoint (codes "version") version_max_bytes
    now (elim text [
      | none ↦ ok none
      | some body ↦ map_ok (ok_or (parse_version body) OtaError.version)
    ])

  -- The second stage: the digest of the image of that version.
  unfoldable pub fetch_sha : Uri → ℕ × ℕ → ℕ → Step World (Option Bytes)
  unfolding fetch_text
  fetch_sha uri endpoint remote = do
    name ← now (file_name remote (codes ".bin.sha256"))
    text ← fetch_text uri endpoint name sha_max_bytes
    now (elim text [
      | none ↦ ok none
      | some body ↦ map_ok (ok_or (parse_sha256_hex body) OtaError.sha)
    ])

  -- The session over an open connection, then the reset.
  unfoldable pub stream_image : Bool × ResponseHead × Bytes → Bytes → Step World Checked
  stream_image (tls, head, rest) expected = do
    len ← now (ok_or head.content_length OtaError.head)
    updated ← (λ w.
        with_errors (λ e. OtaError.update (update_code e))
          (disconnected (apply_update (device tls) sha fuel len expected (rest, w))))
    now (ok reset)

  -- The third stage: the image.
  unfoldable pub fetch_image : Uri → ℕ × ℕ → ℕ → Bytes → Step World Checked
  unfolding exchange stream_image
  fetch_image uri endpoint remote expected = do
    name ← now (file_name remote (codes ".bin"))
    (tls, head, rest) ← exchange uri endpoint name
    elim (head.status == 200) [
      | false ↦ now (ok returned)
      | true ↦ stream_image (tls, head, rest) expected
    ]

  unfoldable pub update_to : Uri → ℕ × ℕ → ℕ → Step World Checked
  unfolding fetch_sha fetch_image
  update_to uri endpoint remote = do
    digest ← fetch_sha uri endpoint remote
    elim digest [
      | none ↦ now (ok returned)
      | some expected ↦ fetch_image uri endpoint remote expected
    ]

  unfoldable pub check_at : Uri → ℕ × ℕ → Step World Checked
  unfolding fetch_version update_to
  check_at uri endpoint = do
    version ← fetch_version uri endpoint
    elim version [
      | none ↦ now (ok returned)
      | some remote ↦ elim (decide config.version remote) [
        | skip ↦ now (ok returned)
        | update ↦ update_to uri endpoint remote
      ]
    ]

  -- `wait_config_up` is before it: a wait, and nothing else.
  unfoldable pub check_and_update : Step World Checked
  unfolding check_at
  check_and_update = do
    uri ← now (map_err (λ _. OtaError.url) (parse_url config.ota_url config.ota_project))
    endpoint ← (λ w. some (resolve net uri w))
    check_at uri endpoint

  -- What `ota_task` does after its trigger: one check, and the number of blinks after a failure.
  unfoldable pub ota_turn : World → Option (Option ℕ × World)
  ota_turn w = elim (check_and_update w) [
    | none ↦ none
    | some (ok _, w') ↦ some (none, w')
    | some (err error, w') ↦ some (some (blink_code error), w')
  ]
