-- ===== src/Ota/Link/Receive.antt =====
-- The response head is received in the end, and fits: the loop of `get` in
-- app/src/ota/transport.rs.
use garagelight.Prelude.{
  ℕ, zero, suc, ◌+◌, ◌≤◌, ◌<◌, ◌≡◌, ◌≢◌, inl, inr, refl, subst, Bool, false, [], Option, none, some,
  arith, Bytes, length, length-take, take, ltb, ◌==◌, Bool-cases,
}
use garagelight.Result.{Result, ok, err}
use garagelight.Ota.Failure.{FetchError, head_code}
use garagelight.Ota.Head.{HeadParser, ResponseHead, new}
use garagelight.Ota.Head.Safety.{Inv, feed, feed-Inv}
use garagelight.Ota.Head.Outcome.{IsAcceptable}
use garagelight.Ota.Head.Safety.Going.{Scanned, scan-Scanned}
use garagelight.Ota.Transport.{Scan, more, found, refused, scan}
use garagelight.Ota.Link.{
  Net, Timed, answered, timed_out, timed, read_timed, heard, receive, get, read_chunk,
}

-- A read gives no more bytes than it was asked for, in a slice of that size.
pub record IsSized {World : Type 0} (net : Net World) : Type 0 where
  pub count :
      (tls : Bool) (len n : ℕ) (buf : Bytes) (w : World)
      → (net.read tls len w).0 ≡ answered (ok (n, buf))
      → n ≤ len
  pub size :
      (tls : Bool) (len n : ℕ) (buf : Bytes) (w : World)
      → (net.read tls len w).0 ≡ answered (ok (n, buf))
      → length buf ≡ len

-- A response that the exchange may end in.
abbrev pub IsReceived : Result FetchError (ResponseHead × Bytes) → Type 0
IsReceived (err e) = e ≢ FetchError.leftover
IsReceived (ok (head, rest)) = IsAcceptable head × (length rest < 256)

module _ {World : Type 0} (net : Net World) (sized : IsSized net) where
  abbrev pub Received : Option (Result FetchError (ResponseHead × Bytes) × World) → Type 0
  Received o =
      (r : Result FetchError (ResponseHead × Bytes)) × (w : World) × (o ≡ some (r, w))
      × IsReceived r

  IsHeard : HeadParser → Result FetchError Scan → Type 0
  IsHeard p (err e) = e ≢ FetchError.leftover
  IsHeard p (ok s) = (n : ℕ) × (1 ≤ n) × (n ≤ 256) × Scanned p.total n s

  heard-IsHeard :
      (p : HeadParser) (t : Timed (Result Unit (ℕ × Bytes)))
      → Inv p
      → p.terminal ≡ none
      → ((n : ℕ) (buf : Bytes) → t ≡ answered (ok (n, buf)) → (n ≤ 256) × (length buf ≡ 256))
      → IsHeard p (heard net (timed FetchError.timeout FetchError.read t) p)
  unfolding IsHeard heard
  heard-IsHeard p timed_out v t fits = λ e. cc
  heard-IsHeard p (answered (err x)) v t fits = λ e. cc
  heard-IsHeard p (answered (ok (n, buf))) v t fits = elim (Bool-cases (n == 0)) [
    | inl z ↦ rw z (λ e. cc)
    | inr nz ↦
        let (le, size) = fits n buf refl in
        rw nz (
          n,
          ground arith,
          le,
          subst (λ k. Scanned p.total k (scan p (take n buf))) (took le size)
              (scan-Scanned p (take n buf) v t),
        )
  ]
    where
      took : n ≤ 256 → length buf ≡ 256 → length (take n buf) ≡ n
      took le size = omega (arith, length-take n buf, le, size)

  turned :
      (fuel : ℕ) (tls : Bool) (p : HeadParser) (w : World) (h : Result FetchError Scan)
      → heard net (read_timed net tls read_chunk w).0 p ≡ h
      → IsHeard p h
      → ((p' : HeadParser) (n : ℕ)
          → 1 ≤ n
          → Scanned p.total n (more p')
          → Received (receive net fuel tls p' (read_timed net tls read_chunk w).1))
      → Received (receive net (suc fuel) tls p w)
  unfolding receive IsHeard
  turned fuel tls p w (err e) q good next =
      (err e, (read_timed net tls read_chunk w).1, rw (receive, q) refl, good)
  turned fuel tls p w (ok (refused e)) q good next = (
    err (FetchError.head (head_code e)),
    (read_timed net tls read_chunk w).1,
    rw (receive, q) refl,
    λ x. cc,
  )
  turned fuel tls p w (ok (found head rest)) q (n, pos, le, (fine, l)) next = (
    ok (head, rest),
    (read_timed net tls read_chunk w).1,
    rw (receive, q, fits) refl,
    (fine, omega arith),
  )
    where
      fits : ltb 256 (length rest) ≡ false
      fits = ground arith
  turned fuel tls p w (ok (more p')) q (n, pos, le, s) next =
      let (r, w', run, good) = next p' n pos s in (r, w', rw (receive, q) run, good)

  receive_lem :
      (fuel : ℕ) (tls : Bool) (p : HeadParser) (w : World)
      → Inv p
      → p.terminal ≡ none
      → 2048 < fuel + p.total
      → Received (receive net fuel tls p w)
  receive_lem zero tls p w v t l = absurd (omega (arith, v.going t))
  receive_lem (suc fuel) tls p w v t l =
      turned fuel tls p w _ refl
        (unfold read_timed in
          heard-IsHeard p (net.read tls 256 w).0 v t
            (λ n buf e. (sized.count tls 256 n buf w e, sized.size tls 256 n buf w e)))
        (λ p' n pos s.
          receive_lem fuel tls p' (read_timed net tls read_chunk w).1 s.0 s.1 (omega (arith, s.2)))

  -- Within 2049 reads, and with any more of them, a request comes to an end: an error, or a head with its first bytes of the
  -- body. Such a head has a status of 2xx or 404, and a length unless it is 404. The bytes behind
  -- it always fit the buffer for them, so the error `Leftover` never occurs.
  pub get_lem :
      (fuel : ℕ) (tls : Bool) (request : Bytes) (w : World)
      → 2049 ≤ fuel
      → Received (get net fuel tls request w)
  unfolding get
  get_lem fuel tls request w enough = wrote _ refl
    where
      started : (w' : World) → Received (receive net fuel tls new w')
      started w' =
          receive_lem fuel tls new w' (unfold feed in feed-Inv []) (unfold new in refl)
            (omega arith)

      wrote :
          (a : Timed (Result Unit Unit))
          → (net.write_all tls request w).0 ≡ a
          → Received (get net fuel tls request w)
      wrote timed_out q =
          (err FetchError.timeout, (net.write_all tls request w).1, rw (get, q) refl, λ e. cc)
      wrote (answered (err x)) q =
          (err FetchError.write, (net.write_all tls request w).1, rw (get, q) refl, λ e. cc)
      wrote (answered (ok x)) q = flushed _ refl
        where
          flushed :
              (a : Timed (Result Unit Unit))
              → (net.flush tls (net.write_all tls request w).1).0 ≡ a
              → Received (get net fuel tls request w)
          flushed timed_out q' = (
            err FetchError.timeout,
            (net.flush tls (net.write_all tls request w).1).1,
            rw (get, q, q') refl,
            λ e. cc,
          )
          flushed (answered (err y)) q' = (
            err FetchError.flush,
            (net.flush tls (net.write_all tls request w).1).1,
            rw (get, q, q') refl,
            λ e. cc,
          )
          flushed (answered (ok y)) q' =
              let (r, w', run, good) = started (net.flush tls (net.write_all tls request w).1).1 in
              (r, w', rw (get, q, q') run, good)
