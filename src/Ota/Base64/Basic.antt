-- ===== src/Ota/Base64/Basic.antt =====
-- What `basic_authorization` of core/src/ota/mod.rs writes.
use garagelight.Prelude.{
  some_inj, ℕ, ◌+◌, ◌*◌, ◌/◌, ◌≡◌, ◌⊎◌, inl, inr, refl, ◌∙◌, sym, ap, ap_at, true, false, ◌∷◌, ◌++◌,
  ◌&&◌, none, some, arith, ltb, if◌then◌else◌, Bytes, IsByte, All, All-append, length, take,
  take-append, drop, Bool-cases, Option, ◌>>=◌,
}
use garagelight.Ota.Base64.{base64, base64_fill, prefix, is_empty, basic_fill, basic_authorization}
use garagelight.Ota.Base64.Encode.{length-encode, base64-encode}
use garagelight.Ota.Base64.Groups.{encode}

behind_prefix : Option (ℕ × Bytes) → Option (ℕ × Bytes)
behind_prefix none = none
behind_prefix (some (k, t)) = some (6 + k, prefix ++ t)

basic_fill-prefix :
    (user pass rest : Bytes)
    → basic_fill user pass (prefix ++ rest) ≡ behind_prefix (base64 (user ++ (b':' ∷ pass)) rest)
unfolding basic_fill behind_prefix base64
basic_fill-prefix user pass rest = go (base64_fill (user ++ (b':' ∷ pass)) 0 rest)
  where
    go :
        (o : Option (ℕ × Bytes))
        → (o >>= λ x. some (length prefix + x.0, take (length prefix) (prefix ++ rest) ++ x.1))
          ≡ behind_prefix o
    go none = refl
    go (some (k, t)) = refl

taken :
    (a b : Bytes) (size : ℕ) → length a ≡ size → take (6 + size) (prefix ++ (a ++ b)) ≡ prefix ++ a
taken a b size h =
    ap_at (λ k. take k (prefix ++ (a ++ b))) (6 + size) (length (prefix ++ a)) (omega (arith, h))
    ∙ take-append (prefix ++ a) b

basic_fill-encode :
    (user pass rest : Bytes) (n : ℕ) (out : Bytes)
    → All IsByte (user ++ (b':' ∷ pass))
    → basic_fill user pass (prefix ++ rest) ≡ some (n, out)
    → take n out ≡ prefix ++ encode (user ++ (b':' ∷ pass))
basic_fill-encode user pass rest n out h e =
    go (Bool-cases (ltb (length rest) ((length creds + 2) / 3 * 4)))
  where
    creds : Bytes
    creds = user ++ (b':' ∷ pass)

    known :
        behind_prefix (
          let size = (length creds + 2) / 3 * 4 in
          if ltb (length rest) size then none else some (size, encode creds ++ drop size rest))
        ≡ some (n, out)
    known =
        sym (ap behind_prefix (base64-encode creds rest h))
        ∙ sym (basic_fill-prefix user pass rest)
        ∙ e

    same :
        (k : ℕ) (t : Bytes)
        → behind_prefix (some (k, t)) ≡ some (n, out)
        → take n out ≡ take (6 + k) (prefix ++ t)
    same k t q = unfold behind_prefix in ap (λ x. take x.0 x.1) (sym (some_inj q))

    go :
        (ltb (length rest) ((length creds + 2) / 3 * 4) ≡ true)
          ⊎ (ltb (length rest) ((length creds + 2) / 3 * 4) ≡ false)
        → take n out ≡ prefix ++ encode creds
    go (inl short) = absurd (none_some (rw short at known))
      where
        none_some : behind_prefix none ≡ some (n, out) → ⊥
        none_some q = unfold behind_prefix in cc
    go (inr enough) =
        same ((length creds + 2) / 3 * 4) (encode creds ++ drop ((length creds + 2) / 3 * 4) rest)
          (rw enough at known)
        ∙ taken (encode creds) (drop ((length creds + 2) / 3 * 4) rest) ((length creds + 2) / 3 * 4)
            (length-encode creds)

-- The authorization that is written is `Basic ` and the Base64 code of the user, a colon and the
-- password, and nothing more.
pub basic_authorization-encode :
    (user pass out : Bytes) (n : ℕ) (out' : Bytes)
    → All IsByte user
    → All IsByte pass
    → basic_authorization user pass out ≡ some (n, out')
    → take n out' ≡ prefix ++ encode (user ++ (b':' ∷ pass))
unfolding basic_authorization
basic_authorization-encode user pass out n out' hu hp e =
    elim (Bool-cases (is_empty user && is_empty pass)) [
      | inl none_given ↦ absurd (no (rw (basic_authorization, none_given) at e))
      | inr given ↦ elim (Bool-cases (ltb (length out) (length prefix))) [
        | inl short ↦ absurd (no (rw (basic_authorization, given, short) at e))
        | inr fits ↦
            basic_fill-encode user pass (drop 6 out) n out'
              (All-append IsByte user (b':' ∷ pass) hu (omega arith, hp))
              (rw (basic_authorization, given, fits) at e)
      ]
    ]
  where
    no : Path (Option (ℕ × Bytes)) none (some (n, out')) → ⊥
    no q = cc
