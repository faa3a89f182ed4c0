-- ===== src/Ota/Check/Streamed.antt =====
-- An image that is fetched: `fetch_image` and `stream_image` of app/src/ota/task.rs in a state of
-- the world in which nothing is written.
use garagelight.Prelude.{
  ℕ, ◌*◌, ◌≤◌, ◌<◌, ◌≡◌, refl, ◌∙◌, ap, Bool, true, false, [], Option, some, arith, Bytes, length,
  ◌==◌,
}
use garagelight.Result.{Result, ok, err}
use garagelight.Ota.Failure.{FetchError, OtaError, update_code}
use garagelight.Ota.Head.{ResponseHead}
use garagelight.Ota.Link.{Net}
use garagelight.Ota.Session.{Sha256, UpdateError, apply_update}
use garagelight.Ota.Session.Safe.{IsFlash, IsStreaming, IsVerified, apply_update_lem}
use garagelight.Ota.Url.{Uri}
use garagelight.Ota.Check.{
  Config, Updater, Checked, returned, reset, Step, ◌>>=◌, and_then, with_errors, disconnected, now,
  device, stream_image, fetch_image,
}
use garagelight.Ota.Check.Board.{IsBoard, Kept}
use garagelight.Ota.Check.Body.{body_sized, body_read-Kept}
use garagelight.Ota.Check.Steps.{Runs, now-Runs, exchange-Runs}

-- A check in a state that ends as `Q` says.
abbrev pub Ends :
    {World A : Type 0}
    → (Result OtaError A → World → Type 0)
    → Option (Result OtaError A × World)
    → Type 0
Ends {World} {A} Q o = (r : Result OtaError A) × (w' : World) × (o ≡ some (r, w')) × Q r w'

-- Nothing is written, and nothing is marked for the swap.
abbrev pub Blank :
    {World : Type 0} {net : Net World} {updater : Updater World}
    → IsBoard net updater
    → World
    → Type 0
Blank board w = (board.image w ≡ []) × (board.marked w ≡ false)

module _ {World Hasher : Type 0} {net : Net World} {updater : Updater World}
    (board : IsBoard net updater) (sha : Sha256 Hasher) (streaming : IsStreaming sha)
    (config : Config) (fuel : ℕ) (enough : 780 * 1024 < fuel) where
  abbrev pub board_flash : (tls : Bool) → IsFlash (device net updater sha config fuel tls)
  board_flash tls = record {
    image = λ s. board.image s.1;
    marked = λ s. board.marked s.1;
    read_image = λ len s. (body_read-Kept board tls len s.0 s.1).0;
    read_marked = λ len s. (body_read-Kept board tls len s.0 s.1).1;
    read_sized = λ len n buf s e. body_sized board tls len n buf s.0 s.1 e;
    write_image = λ piece s s' e. board.write_image piece s.1 s'.1 (ap (λ r. (r.0, r.1.1)) e);
    write_marked = λ offset piece s. board.write_marked offset piece s.1;
    mark_image = λ s. board.mark_image s.1;
    mark_marked = λ s s' e. board.mark_marked s.1 s'.1 (ap (λ r. (r.0, r.1.1)) e);
  }

  Blank-Kept : (w w' : World) → Blank board w → Kept board w w' → Blank board w'
  Blank-Kept w w' (i, m) (i', m') = (i' ∙ i, m' ∙ m)

  pub bind-Ends :
      {A B : Type 0} (Q : Result OtaError B → World → Type 0) (m : Step World A)
      (f : A → Step World B) (w : World)
      → Blank board w
      → Runs board sha config fuel enough m
      → ((e : OtaError) (w₁ : World) → Blank board w₁ → Q (err e) w₁)
      → ((a : A) (w₁ : World) → m w ≡ some (ok a, w₁) → Blank board w₁ → Ends Q (f a w₁))
      → Ends Q ((m >>= f) w)
  unfolding Runs ◌>>=◌
  bind-Ends {A} {B} Q m f w blank runs failed later = go (runs w)
    where
      go :
          (r : Result OtaError A) × (w' : World) × (m w ≡ some (r, w')) × Kept board w w'
          → Ends Q ((m >>= f) w)
      go (err e, w₁, run, kept) =
          (err e, w₁, ap (λ o. and_then o f) run, failed e w₁ (Blank-Kept w w₁ blank kept))
      go (ok a, w₁, run, kept) =
          let (r, w₂, run', good) = later a w₁ run (Blank-Kept w w₁ blank kept) in
          (r, w₂, ap (λ o. and_then o f) run ∙ run', good)

  pub unmarked : (w : World) → Blank board w → ¬ (board.marked w ≡ true)
  unmarked w blank m = let u = blank.1 in cc

  -- What the last stage may claim: only the image of the digest is committed.
  abbrev Streamed : Bytes → Result OtaError Checked → World → Type 0
  Streamed expected r w =
      (r ≡ ok reset → board.marked w ≡ true)
      × (board.marked w ≡ true
          → (sha.finalize (sha.update sha.new (board.image w)) ≡ expected)
            × (length (board.image w) ≤ 780 * 1024))

  failed_early :
      (expected : Bytes) (e : OtaError) (w : World) → Blank board w → Streamed expected (err e) w
  failed_early expected e w blank = ((λ q. cc), λ m. absurd (unmarked w blank m))

  measured :
      (len : ℕ) (expected : Bytes) (w : World)
      → (len ≤ 780 * 1024)
        × (length (board.image w) ≡ len)
        × (sha.finalize (sha.update sha.new (board.image w)) ≡ expected)
      → (sha.finalize (sha.update sha.new (board.image w)) ≡ expected)
        × (length (board.image w) ≤ 780 * 1024)
  measured len expected w (le, size, same) = (same, omega (arith, le, size))

  applied :
      (tls : Bool) (rest expected : Bytes) (len : ℕ) (w : World)
      → Blank board w
      → Ends (Streamed expected) (
          and_then
            (with_errors
              (λ e. OtaError.update (update_code e))
              (disconnected (
                apply_update
                  (device net updater sha config fuel tls)
                  sha
                  fuel
                  len
                  expected
                  (rest, w))))
            (λ _. now (ok reset)))
  unfolding now
  applied tls rest expected len w blank =
      let (r, s, run, verified, _) =
        apply_update_lem (device net updater sha config fuel tls) sha (board_flash tls) streaming
          fuel len expected (rest, w) enough blank.0 blank.1 in
      go r s run verified
    where
      go :
          (r : Result (UpdateError Unit FetchError) Unit) (s : Bytes × World)
          → apply_update (device net updater sha config fuel tls) sha fuel len expected (rest, w)
            ≡ some (r, s)
          → IsVerified
              (device net updater sha config fuel tls)
              sha
              (board_flash tls)
              streaming
              len
              expected
              r
              s
          → Ends (Streamed expected) (
              and_then
                (with_errors
                  (λ e. OtaError.update (update_code e))
                  (disconnected (
                    apply_update
                      (device net updater sha config fuel tls)
                      sha
                      fuel
                      len
                      expected
                      (rest, w))))
                (λ _. now (ok reset)))
      go (ok u) s run verified = (
        ok reset,
        s.1,
        rw run refl,
        ((λ _. verified.0 refl), λ m. measured len expected s.1 (verified.1 m)),
      )
      go (err e) s run verified = (
        err (OtaError.update (update_code e)),
        s.1,
        rw run refl,
        ((λ q. cc), λ m. measured len expected s.1 (verified.1 m)),
      )

  stream_image-Ends :
      (x : Bool × ResponseHead × Bytes) (expected : Bytes) (w : World)
      → Blank board w
      → Ends (Streamed expected) (stream_image net updater sha config fuel x expected w)
  unfolding stream_image
  stream_image-Ends (tls, head, rest) expected w blank =
      bind-Ends (Streamed expected) _ _ w blank (now-Runs board sha config fuel enough _)
        (failed_early expected)
        (λ len w₁ run blank'. unfold ◌>>=◌ in applied tls rest expected len w₁ blank')

  pub fetch_image-Ends :
      (uri : Uri) (endpoint : ℕ × ℕ) (remote : ℕ) (expected : Bytes) (w : World)
      → Blank board w
      → Ends
          (Streamed expected)
          (fetch_image net updater sha config fuel uri endpoint remote expected w)
  unfolding fetch_image
  fetch_image-Ends uri endpoint remote expected w blank =
      bind-Ends (Streamed expected) _ _ w blank (now-Runs board sha config fuel enough _)
        (failed_early expected)
        (λ name w₁ run blank₁.
          bind-Ends (Streamed expected) _ _ w₁ blank₁
            (exchange-Runs board sha config fuel enough uri endpoint name) (failed_early expected)
            (λ x w₂ run' blank₂. by_status x (x.1.status == 200) w₂ blank₂))
    where
      by_status :
          (x : Bool × ResponseHead × Bytes) (b : Bool) (w : World)
          → Blank board w
          → Ends (Streamed expected) (
              elim b as (λ _. Step World Checked) [
                | false ↦ now (ok returned)
                | true ↦ stream_image net updater sha config fuel x expected
              ]
                w)
      by_status x false w blank =
          unfold now in (ok returned, w, refl, ((λ q. cc), λ m. absurd (unmarked w blank m)))
      by_status x true w blank = stream_image-Ends x expected w blank
