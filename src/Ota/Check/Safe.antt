-- ===== src/Ota/Check/Safe.antt =====
-- An update check commits nothing but the image that the server's digest is of:
-- `check_and_update` of app/src/ota/task.rs.
use garagelight.Prelude.{
  some_inj, ℕ, ◌*◌, ◌≤◌, ◌<◌, ◌≡◌, ◌≢◌, refl, sym, ap, true, false, [], Option, none, some, arith,
  Bytes, length,
}
use garagelight.Result.{Result, ok, err, map_err, ok_inj}
use garagelight.Ota.Failure.{OtaError}
use garagelight.Ota.Link.{Net, resolve}
use garagelight.Ota.Session.{Sha256}
use garagelight.Ota.Session.Safe.{IsStreaming}
use garagelight.Ota.Text.{Decision, update, skip, decide}
use garagelight.Ota.Url.{Uri, parse_url}
use garagelight.Ota.Check.{
  Config, Updater, Checked, returned, reset, Step, now, fetch_version, fetch_sha, fetch_image,
  update_to, check_at, check_and_update,
}
use garagelight.Ota.Check.Board.{IsBoard}
use garagelight.Ota.Check.Steps.{now-Runs, fetch_version-Runs, fetch_sha-Runs, resolved-Runs}
use garagelight.Ota.Check.Asked.{Fetched, fetch_version-Fetched, fetch_sha-Fetched}
use garagelight.Decimal.{decimal}
use garagelight.Ota.Text.{parse_version, parse_sha256_hex}
use garagelight.Prelude.{codes, ◌++◌}
use garagelight.Ota.Check.Streamed.{Ends, Blank, bind-Ends, unmarked, fetch_image-Ends}

module _ {World Hasher : Type 0} {net : Net World} {updater : Updater World}
    (board : IsBoard net updater) (sha : Sha256 Hasher) (streaming : IsStreaming sha)
    (config : Config) (fuel : ℕ) (enough : 780 * 1024 < fuel) where
  -- The stages that a committed image went through: its version is the one that the server has under
  -- `version`, and not the one that runs, and its SHA-256 is the digest that the server has under the
  -- name of that version.
  pub record IsProven (w : World) (w' : World) : Type 0 where
    pub uri : Uri
    pub endpoint : ℕ × ℕ
    pub remote : ℕ
    pub expected : Bytes
    pub resolved_world : World
    pub versioned_world : World
    pub digested_world : World
    pub uri_is : parse_url config.ota_url config.ota_project ≡ ok uri
    pub resolved : resolve net uri w ≡ (ok endpoint, resolved_world)
    pub versioned :
        fetch_version net updater sha config fuel uri endpoint resolved_world
        ≡ some (ok (some remote), versioned_world)
    pub version_read :
        Fetched net updater sha config fuel uri endpoint
          (codes "version")
          64
          parse_version
          remote
          resolved_world
          versioned_world
    pub newer : remote ≢ config.version
    pub digested :
        fetch_sha net updater sha config fuel uri endpoint remote versioned_world
        ≡ some (ok (some expected), digested_world)
    pub digest_read :
        Fetched net updater sha config fuel uri endpoint
          (decimal remote ++ codes ".bin.sha256")
          128
          parse_sha256_hex
          expected
          versioned_world
          digested_world
    pub digest : sha.finalize (sha.update sha.new (board.image w')) ≡ expected
    pub fits : length (board.image w') ≤ 780 * 1024

  -- What a check may claim of the flash it leaves, from a state of the world.
  abbrev pub IsSafe : World → Result OtaError Checked → World → Type 0
  IsSafe w r w' = (r ≡ ok reset → board.marked w' ≡ true) × (board.marked w' ≡ true → IsProven w w')

  idle : (w w' : World) → Blank board w' → IsSafe w (ok returned) w'
  idle w w' blank =
      ((λ q. cc), λ m. absurd (unmarked board sha streaming config fuel enough w' blank m))

  failed-IsSafe : (w : World) (e : OtaError) (w' : World) → Blank board w' → IsSafe w (err e) w'
  failed-IsSafe w e w' blank =
      ((λ q. cc), λ m. absurd (unmarked board sha streaming config fuel enough w' blank m))

  now-ok :
      {A : Type 0} (r : Result OtaError A) (a : A) (w w' : World)
      → now r w ≡ some (ok a, w')
      → (r ≡ ok a) × (w ≡ w')
  unfolding now
  now-ok r a w w' e = (cc, cc)

  map_err-ok :
      {E A : Type 0} (f : E → OtaError) (r : Result E A) (a : A) → map_err f r ≡ ok a → r ≡ ok a
  map_err-ok f (ok b) a e = ap ok (ok_inj {E = OtaError} b a e)
  map_err-ok f (err x) a e = cc

  decide-update : (local remote : ℕ) → decide local remote ≡ update → remote ≢ local
  unfolding decide
  decide-update local remote e = ground (arith, e)

  -- What is known once the version was read.
  module _ (w w₁ w₂ : World) (uri : Uri) (endpoint : ℕ × ℕ)
      (parsed : parse_url config.ota_url config.ota_project ≡ ok uri)
      (found : resolve net uri w ≡ (ok endpoint, w₁)) where
    imaged :
        (remote : ℕ) (expected : Bytes) (w₃ : World)
        → fetch_version net updater sha config fuel uri endpoint w₁ ≡ some (ok (some remote), w₂)
        → remote ≢ config.version
        → fetch_sha net updater sha config fuel uri endpoint remote w₂
          ≡ some (ok (some expected), w₃)
        → Blank board w₃
        → Ends (IsSafe w) (fetch_image net updater sha config fuel uri endpoint remote expected w₃)
    imaged remote expected w₃ seen newer digested blank =
        let (r, w', run, (committed, proven)) =
          fetch_image-Ends board sha streaming config fuel enough uri endpoint remote expected w₃
            blank in
        (
          r,
          w',
          run,
          (
            committed,
            λ m. record {
              uri = uri;
              endpoint = endpoint;
              remote = remote;
              expected = expected;
              resolved_world = w₁;
              versioned_world = w₂;
              digested_world = w₃;
              uri_is = parsed;
              resolved = found;
              versioned = seen;
              newer = newer;
              digested = digested;
              version_read =
                  fetch_version-Fetched net updater sha config fuel uri endpoint remote w₁ w₂ seen;
              digest_read =
                  fetch_sha-Fetched net updater sha config fuel uri endpoint remote expected w₂ w₃
                    digested;
              digest = (proven m).0;
              fits = (proven m).1;
            },
          ),
        )

    digested :
        (remote : ℕ)
        → fetch_version net updater sha config fuel uri endpoint w₁ ≡ some (ok (some remote), w₂)
        → remote ≢ config.version
        → Blank board w₂
        → Ends (IsSafe w) (update_to net updater sha config fuel uri endpoint remote w₂)
    unfolding update_to
    digested remote seen newer blank =
        bind-Ends board sha streaming config fuel enough (IsSafe w) _ _ w₂ blank
          (fetch_sha-Runs board sha config fuel enough uri endpoint remote) (failed-IsSafe w)
          (λ digest w₃ run blank₃. by_digest digest w₃ run blank₃)
      where
        by_digest :
            (digest : Option Bytes) (w₃ : World)
            → fetch_sha net updater sha config fuel uri endpoint remote w₂ ≡ some (ok digest, w₃)
            → Blank board w₃
            → Ends (IsSafe w) (
                elim digest as (λ _. Step World Checked) [
                  | none ↦ now (ok returned)
                  | some expected ↦
                      fetch_image net updater sha config fuel uri endpoint remote expected
                ]
                  w₃)
        by_digest none w₃ run blank₃ = unfold now in (ok returned, w₃, refl, idle w w₃ blank₃)
        by_digest (some expected) w₃ run blank₃ = imaged remote expected w₃ seen newer run blank₃

    versioned :
        (version : Option ℕ)
        → fetch_version net updater sha config fuel uri endpoint w₁ ≡ some (ok version, w₂)
        → Blank board w₂
        → Ends (IsSafe w) (
            elim version as (λ _. Step World Checked) [
              | none ↦ now (ok returned)
              | some remote ↦ elim (decide config.version remote) as (λ _. Step World Checked) [
                | update ↦ update_to net updater sha config fuel uri endpoint remote
                | skip ↦ now (ok returned)
              ]
            ]
              w₂)
    versioned none seen blank = unfold now in (ok returned, w₂, refl, idle w w₂ blank)
    versioned (some remote) seen blank = by_decision (decide config.version remote) refl
      where
        by_decision :
            (d : Decision)
            → decide config.version remote ≡ d
            → Ends (IsSafe w) (
                elim (decide config.version remote) as (λ _. Step World Checked) [
                  | update ↦ update_to net updater sha config fuel uri endpoint remote
                  | skip ↦ now (ok returned)
                ]
                  w₂)
        by_decision skip q = rw q (unfold now in (ok returned, w₂, refl, idle w w₂ blank))
        by_decision update q =
            rw q (digested remote seen (decide-update config.version remote q) blank)

  -- From a blank flash a check always ends. If it ends in a reset, the image is committed. If the
  -- image is committed, however the check ended, then the text `version` of the server gave a version
  -- other than the one that runs, the SHA-256 of the image is the digest that the server then gave in
  -- the text named by that version and `.bin.sha256`, and the image fits the active partition.
  pub check_and_update_lem :
      (w : World)
      → board.image w ≡ []
      → board.marked w ≡ false
      → (r : Result OtaError Checked) × (w' : World) × (check_and_update net updater sha config fuel
            w
          ≡ some (r, w'))
        × IsSafe w r w'
  unfolding check_and_update check_at update_to
  check_and_update_lem w empty clear =
      bind-Ends board sha streaming config fuel enough (IsSafe w) _ _ w (empty, clear)
        (now-Runs board sha config fuel enough _) (failed-IsSafe w)
        (λ uri w₀ parsed blank₀.
          bind-Ends board sha streaming config fuel enough (IsSafe w) _ _ w₀ blank₀
            (resolved-Runs board sha config fuel enough uri) (failed-IsSafe w)
            (λ endpoint w₁ found blank₁.
              bind-Ends board sha streaming config fuel enough (IsSafe w) _ _ w₁ blank₁
                (fetch_version-Runs board sha config fuel enough uri endpoint) (failed-IsSafe w)
                (λ version w₂ seen blank₂.
                  let (q, same) = now-ok _ uri w w₀ parsed in
                  versioned w w₁ w₂ uri endpoint
                    (map_err-ok (λ _. OtaError.url) (parse_url config.ota_url config.ota_project)
                      uri q)
                    (some_inj (rw (sym same) at found)) version seen blank₂)))
