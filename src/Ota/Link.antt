-- ===== src/Ota/Link.antt =====
-- The connection of an update check: app/src/ota/transport.rs. The network stack, TLS and the timer
-- are outside the sources: `World` is the state behind them, and the record `Net` holds the calls.
-- A connection is plain or TLS; there is one at a time.
pub mod Request
pub mod Receive
use garagelight.Prelude.{
  ℕ, zero, suc, ◌+◌, ◌-◌, ◌%◌, ◌^◌, Bool, true, false, not, [], ◌∷◌, ◌++◌, Option, none, some, min,
  ltb, ◌==◌, if◌then◌else◌, Bytes, length, take, drop, replicate, is_empty,
}
use garagelight.Result.{Result, ok, err, map_err, ◌>>=◌}
use garagelight.Ota.Failure.{FetchError, OtaError, head_code}
use garagelight.Ota.Head.{HeadParser, ResponseHead, new}
use garagelight.Ota.Transport.{Scan, more, found, refused, scan}
use garagelight.Ota.Url.{Uri}

abbrev pub read_chunk : ℕ
read_chunk = 256

-- What `with_timeout` gives.
pub data Timed (A : Type 0) : Type 0 where
  answered : A → Timed A
  timed_out : Timed A

-- `ipv4` is `parse::<Ipv4Addr>`. A DNS query gives the first address, if it is an IPv4 one. The
-- calls on a connection take whether it is TLS. `read tls len` is given a slice of `len` bytes, and
-- returns the count and the slice as it then is.
pub record Net (World : Type 0) : Type 0 where
  pub ipv4 : Bytes → Option ℕ
  pub dns_query : Bytes → World → Timed (Result Unit (Option ℕ)) × World
  pub connect : ℕ → ℕ → World → Timed (Result Unit Unit) × World
  pub open_tls : Bytes → World → Timed (Result Unit Unit) × World
  pub write_all : Bool → Bytes → World → Timed (Result Unit Unit) × World
  pub flush : Bool → World → Timed (Result Unit Unit) × World
  pub read : Bool → ℕ → World → Timed (Result Unit (ℕ × Bytes)) × World

-- `with_timeout(..).await.map_err(|_| late)?.map_err(|_| failed)`.
abbrev pub timed : {E A : Type 0} → E → E → Timed (Result Unit A) → Result E A
timed late failed (answered (ok a)) = ok a
timed late failed (answered (err _)) = err failed
timed late failed timed_out = err late

module _ {World : Type 0} (net : Net World) where
  unfoldable pub resolve : Uri → World → Result OtaError (ℕ × ℕ) × World
  resolve uri w = elim (net.ipv4 uri.host) [
    | some ip ↦ (ok (ip, uri.port), w)
    | none ↦
        let (answer, w') = net.dns_query uri.host w in
        (
          elim (timed OtaError.timeout OtaError.dns answer) [
            | err e ↦ err e
            | ok none ↦ err OtaError.dns
            | ok (some ip) ↦ ok (ip, uri.port)
          ],
          w',
        )
  ]

  -- The connection that is open, as whether it is TLS.
  unfoldable pub open_link : ℕ × ℕ → Uri → World → Result OtaError Bool × World
  open_link (ip, port) uri w =
      let (answer, w') = net.connect ip port w in
      elim (timed OtaError.timeout OtaError.connect answer) [
        | err e ↦ (err e, w')
        | ok _ ↦
            let (shake, w'') = net.open_tls uri.host w' in
            if not uri.tls
            then (ok false, w')
            else elim (timed OtaError.timeout OtaError.tls shake) [
              | err e ↦ (err e, w'')
              | ok _ ↦ (ok true, w'')
            ]
      ]

  unfoldable pub read_timed : Bool → ℕ → World → Result FetchError (ℕ × Bytes) × World
  read_timed tls len w =
      let (answer, w') = net.read tls len w in (timed FetchError.timeout FetchError.read answer, w')

  -- How one read of the loop of `get` ends it, or the parser that goes on.
  unfoldable pub heard : Result FetchError (ℕ × Bytes) → HeadParser → Result FetchError Scan
  heard (err e) p = err e
  heard (ok (n, buf)) p = if n == 0 then err FetchError.closed else ok (scan p (take n buf))

  -- The loop of `get`, on fuel; `none` means that the fuel ran out. The bytes behind the head go to
  -- the buffer `leftover`, which holds `read_chunk` bytes.
  unfoldable pub receive :
      ℕ → Bool → HeadParser → World → Option (Result FetchError (ResponseHead × Bytes) × World)
  unfolding read_timed heard
  receive zero tls p w = none
  receive (suc fuel) tls p w =
      let (answer, w') = read_timed tls read_chunk w in
      elim (heard answer p) [
        | err e ↦ some (err e, w')
        | ok (refused error) ↦ some (err (FetchError.head (head_code error)), w')
        | ok (found head rest) ↦ some (
          (if ltb read_chunk (length rest) then err FetchError.leftover else ok (head, rest)),
          w',
        )
        | ok (more p') ↦ receive fuel tls p' w'
      ]

  unfoldable pub get :
      ℕ → Bool → Bytes → World → Option (Result FetchError (ResponseHead × Bytes) × World)
  unfolding receive
  get fuel tls request w =
      let (wrote, w₁) = net.write_all tls request w in
      let (flushed, w₂) = net.flush tls w₁ in
      elim (timed FetchError.timeout FetchError.write wrote) [
        | err e ↦ some (err e, w₁)
        | ok _ ↦ elim (timed FetchError.timeout FetchError.flush flushed) [
          | err e ↦ some (err e, w₂)
          | ok _ ↦ receive fuel tls new w₂
        ]
      ]

  -- The loop of `read_small` behind the bytes `out`, on fuel.
  unfoldable pub fill : ℕ → Bool → ℕ → Bytes → World → Option (Result FetchError Bytes × World)
  unfolding read_timed
  fill zero tls len out w = none
  fill (suc fuel) tls len out w = elim (ltb (length out) len) [
    | false ↦ some (ok out, w)
    | true ↦
        let (answer, w') = read_timed tls (len - length out) w in
        elim answer [
          | err e ↦ some (err e, w')
          | ok (n, buf) ↦ elim (n == 0) [
            | true ↦ some (ok out, w')
            | false ↦ fill fuel tls len (out ++ take n buf) w'
          ]
        ]
  ]

  -- `len as usize`: 32 bits on the target.
  abbrev pub as_usize : ℕ → ℕ
  as_usize len = len % 2 ^ 32

  -- The bytes of `out`, which holds `capacity` of them, up to the count returned.
  unfoldable pub read_small :
      ℕ → Bool → Bytes → ℕ → ℕ → World → Option (Result FetchError Bytes × World)
  unfolding fill
  read_small fuel tls leftover len capacity w =
      if ltb capacity (as_usize len)
      then some (err FetchError.body_too_large, w)
      else fill fuel tls (as_usize len) (take (as_usize len) leftover) w

  -- `HttpBody`: the bytes left over first, then the connection. Its state is the leftover. What
  -- stands in the slice behind the bytes counted is not read; here it is zeros.
  unfoldable pub body_read :
      Bool → ℕ → Bytes × World → Result FetchError (ℕ × Bytes) × (Bytes × World)
  unfolding read_timed
  body_read tls len (leftover, w) = elim (is_empty leftover) [
    | false ↦
        let n = min len (length leftover) in
        (ok (n, take n leftover ++ replicate (len - n) 0), (drop n leftover, w))
    | true ↦ let (answer, w') = read_timed tls len w in (answer, ([], w'))
  ]
