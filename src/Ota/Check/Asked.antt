-- ===== src/Ota/Check/Asked.antt =====
-- Which texts of the server a check asks for, and what it makes of them: `check_and_update` of
-- app/src/ota/task.rs.
use garagelight.Prelude.{
  sym, subst, ◌∙◌, ℕ, ◌≡◌, refl, ap, [], ◌∷◌, ◌++◌, Option, none, some, arith, Bytes, codes,
}
use garagelight.Result.{Result, ok, err, ok_or, ok_inj}
use garagelight.Decimal.{decimal}
use garagelight.Ota.Failure.{OtaError}
use garagelight.Ota.Link.{Net}
use garagelight.Ota.Link.Request.Text.{ok_or-ok, write_pieces-concat}
use garagelight.Ota.Session.{Sha256}
use garagelight.Ota.Text.{parse_version, parse_sha256_hex}
use garagelight.Ota.Url.{Uri}
use garagelight.Ota.Check.{
  Config, Updater, Step, ◌>>=◌, and_then, now, file_name, fetch_text, fetch_version, fetch_sha,
  map_ok,
}

bind-inv :
    {World A B : Type 0} (m : Step World A) (f : A → Step World B) (b : B) (w w' : World)
    → (m >>= f) w ≡ some (ok b, w')
    → (a : A) × (v : World) × (m w ≡ some (ok a, v)) × (f a v ≡ some (ok b, w'))
unfolding ◌>>=◌
bind-inv {World} {A} {B} m f b w w' e = by_first (m w) refl e
  where
    by_first :
        (o : Option (Result OtaError A × World))
        → m w ≡ o
        → and_then o f ≡ some (ok b, w')
        → (a : A) × (v : World) × (m w ≡ some (ok a, v)) × (f a v ≡ some (ok b, w'))
    by_first none q h = absurd cc
    by_first (some (err x, v)) q h = absurd cc
    by_first (some (ok a, v)) q h = (a, v, q, h)

now-inv :
    {World A : Type 0} (r : Result OtaError A) (a : A) (w w' : World)
    → now r w ≡ some (ok a, w')
    → (r ≡ ok a) × (w ≡ w')
unfolding now
now-inv r a w w' e = (cc, cc)

file_name-text :
    (remote : ℕ) (ending name : Bytes)
    → file_name remote ending ≡ ok name
    → name ≡ decimal remote ++ (ending ++ [])
unfolding file_name
file_name-text remote ending name e =
    (write_pieces-concat 48 [] (decimal remote ∷ ending ∷ []) name (omega arith)
      (ok_or-ok _ OtaError.request name e)).0

-- What `elim` makes of a text that was read.
made :
    {A : Type 0} (parse : Bytes → Option A) (error : OtaError) (text : Option Bytes) (a : A)
    → Path
        (Result OtaError (Option A))
        (elim text [ none ↦ ok none | some body ↦ map_ok (ok_or (parse body) error) ])
        (ok (some a))
    → (body : Bytes) × (text ≡ some body) × (parse body ≡ some a)
unfolding map_ok
made {A} parse error none a e = absurd (none-some (ok_inj {E = OtaError} none (some a) e))
  where
    none-some : Path (Option A) none (some a) → ⊥
    none-some x = cc
made {A} parse error (some body) a e = (body, refl, by_parse (parse body) e)
  where
    by_parse : (o : Option A) → map_ok (ok_or o error) ≡ ok (some a) → o ≡ some a
    by_parse none h = cc
    by_parse (some x) h = ok_inj {E = OtaError} (some x) (some a) h

module _ {World Hasher : Type 0} (net : Net World) (updater : Updater World) (sha : Sha256 Hasher)
    (config : Config) (fuel : ℕ) where
  -- A text that was fetched, and read as a value.
  abbrev pub Fetched :
      {A : Type 0} → Uri → ℕ × ℕ → Bytes → ℕ → (Bytes → Option A) → A → World → World → Type 0
  Fetched uri endpoint name capacity parse a w w' =
      (body : Bytes) × (fetch_text net updater sha config fuel uri endpoint name capacity w
        ≡ some (ok (some body), w'))
      × (parse body ≡ some a)

  fetched :
      {A : Type 0} (uri : Uri) (endpoint : ℕ × ℕ) (name : Bytes) (capacity : ℕ)
      (parse : Bytes → Option A) (error : OtaError) (a : A) (w w' : World)
      → (fetch_text net updater sha config fuel uri endpoint name capacity >>= (λ text.
            now (elim text [ none ↦ ok none | some body ↦ map_ok (ok_or (parse body) error) ])))
          w
        ≡ some (ok (some a), w')
      → Fetched uri endpoint name capacity parse a w w'
  fetched uri endpoint name capacity parse error a w w' e =
      let (text, v, read, later) = bind-inv _ _ (some a) w w' e in
      let (q, same) = now-inv _ (some a) v w' later in
      let (body, is, parsed) = made parse error text a q in
      (
        body,
        read
            ∙ ap (λ (t : Option Bytes). some (ok t, v)) is
            ∙ ap (λ z. some (ok (some body), z)) same,
        parsed,
      )

  pub fetch_version-Fetched :
      (uri : Uri) (endpoint : ℕ × ℕ) (remote : ℕ) (w w' : World)
      → fetch_version net updater sha config fuel uri endpoint w ≡ some (ok (some remote), w')
      → Fetched uri endpoint (codes "version") 64 parse_version remote w w'
  unfolding fetch_version
  fetch_version-Fetched uri endpoint remote w w' e =
      fetched uri endpoint (codes "version") 64 parse_version OtaError.version remote w w' e

  pub fetch_sha-Fetched :
      (uri : Uri) (endpoint : ℕ × ℕ) (remote : ℕ) (expected : Bytes) (w w' : World)
      → fetch_sha net updater sha config fuel uri endpoint remote w ≡ some (ok (some expected), w')
      → Fetched uri endpoint
          (decimal remote ++ codes ".bin.sha256")
          128
          parse_sha256_hex
          expected
          w
          w'
  unfolding fetch_sha
  fetch_sha-Fetched uri endpoint remote expected w w' e =
      let (name, v, named, later) = bind-inv _ _ (some expected) w w' e in
      let (q, same) = now-inv _ name w v named in
      let text = file_name-text remote (codes ".bin.sha256") name q in
      subst (λ z. Fetched uri endpoint z 128 parse_sha256_hex expected w w') text
        (subst (λ z. Fetched uri endpoint name 128 parse_sha256_hex expected z w') (sym same)
          (fetched uri endpoint name 128 parse_sha256_hex OtaError.sha expected v w' later))
