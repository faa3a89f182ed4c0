-- ===== src/Ota/Check/Board.antt =====
-- What a check relies on: calls of the network that leave the flash alone, and a flash that keeps
-- what is written; and that every step before the session leaves the flash as it was. For
-- app/src/ota/task.rs and app/src/ota/transport.rs.
use garagelight.Prelude.{
  ℕ, zero, suc, ◌≡◌, inl, inr, refl, ◌∙◌, Bool, true, ◌++◌, Option, none, some, Bytes, length,
  Bool-cases,
}
use garagelight.Result.{Result, ok, err}
use garagelight.Ota.Failure.{FetchError, OtaError}
use garagelight.Ota.Head.{HeadParser, new}
use garagelight.Ota.Transport.{Scan, more, found, refused}
use garagelight.Ota.Link.{
  Net, timed, resolve, open_link, read_timed, heard, receive, get, read_chunk,
}
use garagelight.Ota.Link.Receive.{IsSized}
use garagelight.Ota.Url.{Uri}
use garagelight.Ota.Check.{Updater}

module _ {World : Type 0} (image : World → Bytes) (marked : World → Bool) where
  -- The flash is the same.
  abbrev pub Same : World → World → Type 0
  Same w w' = (image w' ≡ image w) × (marked w' ≡ marked w)

pub record IsBoard {World : Type 0} (net : Net World) (updater : Updater World) : Type 0 where
  pub image : World → Bytes
  pub marked : World → Bool
  pub sized : IsSized net
  pub dns_keeps : (host : Bytes) (w : World) → Same image marked w (net.dns_query host w).1
  pub connect_keeps : (ip port : ℕ) (w : World) → Same image marked w (net.connect ip port w).1
  pub open_tls_keeps : (host : Bytes) (w : World) → Same image marked w (net.open_tls host w).1
  pub write_all_keeps :
      (tls : Bool) (text : Bytes) (w : World) → Same image marked w (net.write_all tls text w).1
  pub flush_keeps : (tls : Bool) (w : World) → Same image marked w (net.flush tls w).1
  pub read_keeps : (tls : Bool) (len : ℕ) (w : World) → Same image marked w (net.read tls len w).1
  pub write_image :
      (piece : Bytes) (w w' : World)
      → updater.write (length (image w)) piece w ≡ (ok tt, w')
      → image w' ≡ image w ++ piece
  pub write_marked :
      (offset : ℕ) (piece : Bytes) (w : World) → marked (updater.write offset piece w).1 ≡ marked w
  pub mark_image : (w : World) → image (updater.mark_updated w).1 ≡ image w
  pub mark_marked : (w w' : World) → updater.mark_updated w ≡ (ok tt, w') → marked w' ≡ true

module _ {World : Type 0} {net : Net World} {updater : Updater World}
    (board : IsBoard net updater) where
  abbrev pub Kept : World → World → Type 0
  Kept = Same board.image board.marked

  pub Kept-refl : (w : World) → Kept w w
  Kept-refl w = (refl, refl)

  pub Kept-trans : (w w' w'' : World) → Kept w w' → Kept w' w'' → Kept w w''
  Kept-trans w w' w'' (i, m) (i', m') = (i' ∙ i, m' ∙ m)

  pub resolve-Kept : (uri : Uri) (w : World) → Kept w (resolve net uri w).1
  unfolding resolve
  resolve-Kept uri w = go (net.ipv4 uri.host) refl
    where
      go : (o : Option ℕ) → net.ipv4 uri.host ≡ o → Kept w (resolve net uri w).1
      go (some ip) q = rw (resolve, q) (Kept-refl w)
      go none q = rw (resolve, q) (board.dns_keeps uri.host w)

  pub open_link-Kept :
      (endpoint : ℕ × ℕ) (uri : Uri) (w : World) → Kept w (open_link net endpoint uri w).1
  unfolding open_link
  open_link-Kept (ip, port) uri w = connected _ refl
    where
      w₁ : World
      w₁ = (net.connect ip port w).1

      shaken :
          (c : Result OtaError Unit)
          → timed OtaError.timeout OtaError.connect (net.connect ip port w).0 ≡ ok tt
          → timed OtaError.timeout OtaError.tls (net.open_tls uri.host w₁).0 ≡ c
          → Kept w (open_link net (ip, port) uri w).1
      shaken c q q' = elim (Bool-cases uri.tls) [
        | inr plain ↦ rw (open_link, q, plain) (board.connect_keeps ip port w)
        | inl secure ↦ opened c q' secure
      ]
        where
          both : Kept w (net.open_tls uri.host w₁).1
          both =
              Kept-trans w w₁ (net.open_tls uri.host w₁).1 (board.connect_keeps ip port w)
                (board.open_tls_keeps uri.host w₁)

          opened :
              (c : Result OtaError Unit)
              → timed OtaError.timeout OtaError.tls (net.open_tls uri.host w₁).0 ≡ c
              → uri.tls ≡ true
              → Kept w (open_link net (ip, port) uri w).1
          opened (err e) q' secure = rw (open_link, q, secure, q') both
          opened (ok a) q' secure = rw (open_link, q, secure, q') both

      connected :
          (r : Result OtaError Unit)
          → timed OtaError.timeout OtaError.connect (net.connect ip port w).0 ≡ r
          → Kept w (open_link net (ip, port) uri w).1
      connected (err e) q = rw (open_link, q) (board.connect_keeps ip port w)
      connected (ok a) q = shaken _ q refl

  pub read_timed-Kept : (tls : Bool) (len : ℕ) (w : World) → Kept w (read_timed net tls len w).1
  read_timed-Kept tls len w = unfold read_timed in board.read_keeps tls len w

  -- The flash is the same after a step, if the step ends.
  abbrev pub Keeps : {A : Type 0} → World → Option (A × World) → Type 0
  Keeps w none = Unit
  Keeps w (some (a, w')) = Kept w w'

  pub Keeps-trans :
      {A : Type 0} (w w' : World) (o : Option (A × World)) → Kept w w' → Keeps w' o → Keeps w o
  Keeps-trans w w' none k h = tt
  Keeps-trans w w' (some (a, w'')) k h = Kept-trans w w' w'' k h

  receive-Keeps :
      (fuel : ℕ) (tls : Bool) (p : HeadParser) (w : World) → Keeps w (receive net fuel tls p w)
  unfolding receive
  receive-Keeps zero tls p w = tt
  receive-Keeps (suc fuel) tls p w =
      turn _ refl (λ p'. receive-Keeps fuel tls p' (read_timed net tls read_chunk w).1)
    where
      one : Kept w (read_timed net tls read_chunk w).1
      one = read_timed-Kept tls read_chunk w

      turn :
          (h : Result FetchError Scan)
          → heard net (read_timed net tls read_chunk w).0 p ≡ h
          → ((p' : HeadParser)
              → Keeps
                  (read_timed net tls read_chunk w).1
                  (receive net fuel tls p' (read_timed net tls read_chunk w).1))
          → Keeps w (receive net (suc fuel) tls p w)
      turn (err e) q next = rw (receive, q) one
      turn (ok (refused e)) q next = rw (receive, q) one
      turn (ok (found head rest)) q next = rw (receive, q) one
      turn (ok (more p')) q next =
          rw (receive, q)
            (Keeps-trans w (read_timed net tls read_chunk w).1
              (receive net fuel tls p' (read_timed net tls read_chunk w).1) one (next p'))

  pub get-Keeps :
      (fuel : ℕ) (tls : Bool) (request : Bytes) (w : World) → Keeps w (get net fuel tls request w)
  unfolding get
  get-Keeps fuel tls request w = wrote _ refl
    where
      w₁ : World
      w₁ = (net.write_all tls request w).1

      w₂ : World
      w₂ = (net.flush tls w₁).1

      two : Kept w w₂
      two = Kept-trans w w₁ w₂ (board.write_all_keeps tls request w) (board.flush_keeps tls w₁)

      flushed :
          (a : Result FetchError Unit)
          → timed FetchError.timeout FetchError.write (net.write_all tls request w).0 ≡ ok tt
          → timed FetchError.timeout FetchError.flush (net.flush tls w₁).0 ≡ a
          → Keeps w (get net fuel tls request w)
      flushed (err e) q q' = rw (get, q, q') two
      flushed (ok a) q q' =
          rw (get, q, q')
            (Keeps-trans w w₂ (receive net fuel tls new w₂) two (receive-Keeps fuel tls new w₂))

      wrote :
          (a : Result FetchError Unit)
          → timed FetchError.timeout FetchError.write (net.write_all tls request w).0 ≡ a
          → Keeps w (get net fuel tls request w)
      wrote (err e) q = rw (get, q) (board.write_all_keeps tls request w)
      wrote (ok a) q = flushed _ q refl
