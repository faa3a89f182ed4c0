-- ===== src/Ota/Check/Steps.antt =====
-- Every step of a check before the session ends, and leaves the flash as it was. For
-- app/src/ota/task.rs.
use garagelight.Prelude.{
  ℕ, ◌*◌, ◌≤◌, ◌<◌, ◌≡◌, refl, ◌∙◌, subst, ap, Bool, true, false, Option, none, some, arith, Bytes,
  codes, ◌==◌,
}
use garagelight.Result.{Result, ok, err, map_err}
use garagelight.Ota.Failure.{OtaError}
use garagelight.Ota.Head.{ResponseHead}
use garagelight.Ota.Link.{Net, resolve, open_link, get, read_small}
use garagelight.Ota.Link.Receive.{get_lem}
use garagelight.Ota.Session.{Sha256}
use garagelight.Ota.Url.{Uri}
use garagelight.Ota.Check.{
  Config, Updater, Step, ◌>>=◌, and_then, with_errors, now, exchange, fetch_body, fetch_text,
  fetch_version, fetch_sha,
}
use garagelight.Ota.Check.Board.{
  IsBoard, Kept, Kept-refl, Kept-trans, Keeps, resolve-Kept, open_link-Kept, get-Keeps,
}
use garagelight.Ota.Check.Body.{read_small_lem}

module _ {World Hasher : Type 0} {net : Net World} {updater : Updater World}
    (board : IsBoard net updater) (sha : Sha256 Hasher) (config : Config) (fuel : ℕ)
    (enough : 780 * 1024 < fuel) where
  -- A step that always ends, and leaves the flash alone.
  unfoldable pub Runs : {A : Type 0} → Step World A → Type 0
  Runs {A} m =
      (w : World) → (r : Result OtaError A) × (w' : World) × (m w ≡ some (r, w')) × Kept board w w'

  pub now-Runs : {A : Type 0} (r : Result OtaError A) → Runs (now r)
  unfolding Runs now
  now-Runs r w = (r, w, refl, Kept-refl board w)

  bind-Runs :
      {A B : Type 0} (m : Step World A) (f : A → Step World B)
      → Runs m
      → ((a : A) → Runs (f a))
      → Runs (m >>= f)
  unfolding Runs ◌>>=◌
  bind-Runs {A} {B} m f first later w = go (first w)
    where
      go :
          (r : Result OtaError A) × (w' : World) × (m w ≡ some (r, w')) × Kept board w w'
          → (r : Result OtaError B) × (w' : World) × ((m >>= f) w ≡ some (r, w')) × Kept board w w'
      go (err e, w₁, run, kept) = (err e, w₁, ap (λ o. and_then o f) run, kept)
      go (ok a, w₁, run, kept) =
          let (r, w₂, run', kept') = later a w₁ in
          (r, w₂, ap (λ o. and_then o f) run ∙ run', Kept-trans board w w₁ w₂ kept kept')

  got-Runs :
      (tls : Bool) (request : Bytes)
      → Runs (λ w. with_errors OtaError.transport (get net fuel tls request w))
  unfolding Runs
  got-Runs tls request w =
      let (r, w', run, _) = get_lem net board.sized fuel tls request w (omega arith) in
      (
        map_err OtaError.transport r,
        w',
        ap (with_errors OtaError.transport) run,
        subst (Keeps board w) run (get-Keeps board fuel tls request w),
      )

  small-Runs :
      (tls : Bool) (rest : Bytes) (len capacity : ℕ)
      → capacity ≤ 780 * 1024
      → Runs (λ w. with_errors OtaError.transport (read_small net fuel tls rest len capacity w))
  unfolding Runs
  small-Runs tls rest len capacity le w =
      let (r, w', run, kept, short) =
        read_small_lem board fuel tls rest len capacity w (omega arith) in
      (map_err OtaError.transport r, w', ap (with_errors OtaError.transport) run, kept)

  opened-Runs : (uri : Uri) (endpoint : ℕ × ℕ) → Runs (λ w. some (open_link net endpoint uri w))
  unfolding Runs
  opened-Runs uri endpoint w = (
    (open_link net endpoint uri w).0,
    (open_link net endpoint uri w).1,
    refl,
    open_link-Kept board endpoint uri w,
  )

  pub exchange-Runs :
      (uri : Uri) (endpoint : ℕ × ℕ) (name : Bytes)
      → Runs (exchange net updater sha config fuel uri endpoint name)
  unfolding exchange
  exchange-Runs uri endpoint name = bind-Runs _ _ (now-Runs _) (λ request.
      bind-Runs _ _ (opened-Runs uri endpoint)
        (λ tls. bind-Runs _ _ (got-Runs tls request) (λ x. now-Runs _)))

  fetch_body-Runs :
      (x : Bool × ResponseHead × Bytes) (capacity : ℕ)
      → capacity ≤ 780 * 1024
      → Runs (fetch_body net updater sha config fuel x capacity)
  unfolding fetch_body
  fetch_body-Runs (tls, head, rest) capacity le = bind-Runs _ _ (now-Runs _) (λ len.
      bind-Runs _ _ (now-Runs _)
        (λ checked. bind-Runs _ _ (small-Runs tls rest len capacity le) (λ body. now-Runs _)))

  fetch_text-Runs :
      (uri : Uri) (endpoint : ℕ × ℕ) (name : Bytes) (capacity : ℕ)
      → capacity ≤ 780 * 1024
      → Runs (fetch_text net updater sha config fuel uri endpoint name capacity)
  unfolding fetch_text
  fetch_text-Runs uri endpoint name capacity le =
      bind-Runs _ _ (exchange-Runs uri endpoint name) (λ x. by_status x (x.1.status == 200))
    where
      by_status :
          (x : Bool × ResponseHead × Bytes) (b : Bool)
          → Runs {A = Option Bytes} (elim b [
            | false ↦ now (ok none)
            | true ↦ fetch_body net updater sha config fuel x capacity
          ])
      by_status x false = now-Runs _
      by_status x true = fetch_body-Runs x capacity le

  pub fetch_version-Runs :
      (uri : Uri) (endpoint : ℕ × ℕ) → Runs (fetch_version net updater sha config fuel uri endpoint)
  unfolding fetch_version
  fetch_version-Runs uri endpoint =
      bind-Runs _ _ (fetch_text-Runs uri endpoint (codes "version") 64 (omega arith))
        (λ x. now-Runs _)

  pub fetch_sha-Runs :
      (uri : Uri) (endpoint : ℕ × ℕ) (remote : ℕ)
      → Runs (fetch_sha net updater sha config fuel uri endpoint remote)
  unfolding fetch_sha
  fetch_sha-Runs uri endpoint remote = bind-Runs _ _ (now-Runs _) (λ name.
      bind-Runs _ _ (fetch_text-Runs uri endpoint name 128 (omega arith)) (λ x. now-Runs _))

  pub resolved-Runs : (uri : Uri) → Runs (λ w. some (resolve net uri w))
  unfolding Runs
  resolved-Runs uri w =
      ((resolve net uri w).0, (resolve net uri w).1, refl, resolve-Kept board uri w)
