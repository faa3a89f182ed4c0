-- ===== src/Ota/Check/Body.antt =====
-- How a body is read, off the head's bytes and then the link: `read_small` and `HttpBody` of
-- app/src/ota/transport.rs.
use garagelight.Prelude.{
  ℕ, zero, suc, ◌+◌, ◌-◌, ◌≤◌, ◌<◌, ◌≡◌, inl, inr, refl, ◌∙◌, sym, ap, Bool, true, [], ◌∷◌, ◌++◌,
  Option, some, min, arith, Bytes, length, length-append, length-take, length-replicate, take,
  replicate, is_empty, ltb, ◌==◌, Bool-cases,
}
use garagelight.Result.{Result, ok, err, ok_inj}
use garagelight.Ota.Failure.{FetchError}
use garagelight.Ota.Link.{
  Net, Timed, answered, timed_out, timed, read_timed, fill, read_small, body_read, as_usize,
}
use garagelight.Ota.Check.{Updater}
use garagelight.Ota.Check.Board.{IsBoard, Kept, Kept-refl, Kept-trans}

module _ {World : Type 0} {net : Net World} {updater : Updater World}
    (board : IsBoard net updater) where
  abbrev Filled : ℕ → World → Option (Result FetchError Bytes × World) → Type 0
  Filled len w o =
      (r : Result FetchError Bytes) × (w' : World) × (o ≡ some (r, w'))
      × Kept board w w'
      × ((b : Bytes) → r ≡ ok b → length b ≤ len)

  -- The loop of `read_small` ends within a turn for each byte and one more.
  fill_lem :
      (fuel : ℕ) (tls : Bool) (len : ℕ) (out : Bytes) (w : World)
      → length out ≤ len
      → len < fuel + length out
      → Filled len w (fill net fuel tls len out w)
  unfolding fill read_timed
  fill_lem zero tls len out w s l = absurd (omega arith)
  fill_lem (suc fuel) tls len out w s l = elim (Bool-cases (ltb (length out) len)) [
    | inr full ↦ (
      ok out,
      w,
      rw (fill, full) refl,
      Kept-refl board w,
      λ b e. rw (sym (ok_inj {E = FetchError} out b e)) s,
    )
    | inl room ↦ turn room _ refl (λ piece pos fits.
        fill_lem fuel tls len (out ++ piece) (net.read tls (len - length out) w).1
          (omega (arith, length-append out piece)) (omega (arith, length-append out piece)))
  ]
    where
      w₁ : World
      w₁ = (net.read tls (len - length out) w).1

      one : Kept board w w₁
      one = board.read_keeps tls (len - length out) w

      turn :
          ltb (length out) len ≡ true
          → (a : Timed (Result Unit (ℕ × Bytes))) → (net.read tls (len - length out) w).0 ≡ a
          → ((piece : Bytes)
              → 1 ≤ length piece
              → length out + length piece ≤ len
              → Filled len w₁ (fill net fuel tls len (out ++ piece) w₁))
          → Filled len w (fill net (suc fuel) tls len out w)
      turn room timed_out q next =
          (err FetchError.timeout, w₁, rw (fill, room, q) refl, one, λ b e. absurd cc)
      turn room (answered (err x)) q next =
          (err FetchError.read, w₁, rw (fill, room, q) refl, one, λ b e. absurd cc)
      turn room (answered (ok (n, buf))) q next = elim (Bool-cases (n == 0)) [
        | inl z ↦ (
          ok out,
          w₁,
          rw (fill, room, q, z) refl,
          one,
          λ b e. rw (sym (ok_inj {E = FetchError} out b e)) s,
        )
        | inr nz ↦
            let size = board.sized.size tls (len - length out) n buf w q in
            let (r, w', run, kept, short) =
              next (take n buf) (ground (arith, length-take n buf))
                (ground (arith, length-take n buf)) in
            (r, w', rw (fill, room, q, nz) run, Kept-trans board w w₁ w' one kept, short)
      ]

  -- A short body is read in the end, with a turn for each byte that the size guard lets through and
  -- one more, and never has more bytes than the caller's buffer.
  pub read_small_lem :
      (fuel : ℕ) (tls : Bool) (leftover : Bytes) (len capacity : ℕ) (w : World)
      → capacity < fuel
      → (r : Result FetchError Bytes) × (w' : World) × (read_small net fuel tls leftover len
            capacity w
          ≡ some (r, w'))
        × Kept board w w'
        × ((b : Bytes) → r ≡ ok b → length b ≤ capacity)
  unfolding read_small
  read_small_lem fuel tls leftover len capacity w enough =
      elim (Bool-cases (ltb capacity (as_usize net len))) [
        | inl big ↦
            (err FetchError.body_too_large, w, rw big refl, Kept-refl board w, λ b e. absurd cc)
        | inr fits ↦
            let (r, w', run, kept, short) =
              fill_lem fuel tls (as_usize net len) (take (as_usize net len) leftover) w
                (omega (arith, length-take (as_usize net len) leftover)) (ground arith) in
            (r, w', rw (fits, run) refl, kept, λ b e. ground (arith, short b e))
      ]

  pub body_sized :
      (tls : Bool) (len n : ℕ) (buf leftover : Bytes) (w : World)
      → (body_read net tls len (leftover, w)).0 ≡ ok (n, buf)
      → length buf ≡ len
  unfolding body_read read_timed is_empty
  body_sized tls len n buf (c ∷ l) w e =
      sym (ap length (ap (λ x. x.1) (ok_inj {E = FetchError} _ (n, buf) e)))
      ∙ length-append (take served (c ∷ l)) (replicate (len - served) 0)
      ∙ omega (arith, length-take served (c ∷ l), length-replicate (len - served) zero)
    where
      served : ℕ
      served = min len (length (c ∷ l))
  body_sized tls len n buf [] w e = answered_by _ refl e
    where
      answered_by :
          (a : Timed (Result Unit (ℕ × Bytes)))
          → (net.read tls len w).0 ≡ a
          → timed FetchError.timeout FetchError.read a ≡ ok (n, buf)
          → length buf ≡ len
      answered_by timed_out q h = absurd cc
      answered_by (answered (err x)) q h = absurd cc
      answered_by (answered (ok (m, slice))) q h =
          board.sized.size tls len n buf w
            (q ∙ ap (λ x. answered (ok x)) (ok_inj {E = FetchError} (m, slice) (n, buf) h))

  pub body_read-Kept :
      (tls : Bool) (len : ℕ) (leftover : Bytes) (w : World)
      → Kept board w (body_read net tls len (leftover, w)).1.1
  unfolding body_read read_timed is_empty
  body_read-Kept tls len (c ∷ l) w = Kept-refl board w
  body_read-Kept tls len [] w = board.read_keeps tls len w
