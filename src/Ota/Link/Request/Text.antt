-- ===== src/Ota/Link/Request/Text.antt =====
-- The text of a request, and that `build_request` of app/src/ota/transport.rs writes it.
use garagelight.Prelude.{
  concat, some_inj, ℕ, ◌+◌, ◌≤◌, ◌≡◌, inl, inr, ◌∙◌, sym, ap, not, ◌||◌, List, [], ◌∷◌, ◌++◌,
  append_assoc, append-nil, Option, none, some, arith, if◌then◌else◌, Bytes, IsByte, All, codes,
  length, length-append, take, replicate, is_empty, Bool-cases,
}
use garagelight.Result.{ok, ok_or, bind-ok, ok_inj}
use garagelight.Ota.Failure.{OtaError}
use garagelight.Ota.Base64.{basic_authorization, prefix}
use garagelight.Ota.Base64.Groups.{encode}
use garagelight.Ota.Base64.Basic.{basic_authorization-encode}
use garagelight.Ota.Url.{Uri}
use garagelight.Ota.Link.Request.{write_str, write_pieces, write_auth, build_request}

pub ok_or-ok : {E A : Type 0} (o : Option A) (e : E) (a : A) → ok_or o e ≡ ok a → o ≡ some a
ok_or-ok {E} none e a h = cc
ok_or-ok {E} (some b) e a h = ap some (ok_inj {E = E} b a h)

pub write_pieces-concat :
    (n : ℕ) (buf : Bytes) (ss : List Bytes) (out : Bytes)
    → length buf ≤ n
    → write_pieces n buf ss ≡ some out
    → (out ≡ buf ++ concat ss) × (length out ≤ n)
unfolding write_pieces
write_pieces-concat n buf [] out l e =
    let q = some_inj e in (sym q ∙ sym (append-nil buf), rw (sym q) l)
write_pieces-concat n buf (s ∷ ss) out l e =
    let (fits, rest) = step n buf s ss out e in
    let (q, le) =
      write_pieces-concat n (buf ++ s) ss out (omega (arith, fits, length-append buf s)) rest in
    (q ∙ append_assoc buf s (concat ss), le)
  where
    step :
        (n : ℕ) (buf s : Bytes) (ss : List Bytes) (out : Bytes)
        → write_pieces n buf (s ∷ ss) ≡ some out
        → (length buf + length s ≤ n) × (write_pieces n (buf ++ s) ss ≡ some out)
    step n buf s ss out e = unfold write_str in (ground arith, ground arith)

-- The line of the credentials, if there are any.
abbrev pub auth_line : Bytes → Bytes → Bytes
auth_line user password =
    if not (is_empty user) || not (is_empty password)
    then concat (
        codes "Authorization: "
        ∷ (prefix ++ encode (user ++ (b':' ∷ password)))
        ∷ codes "\r\n"
        ∷ [])
    else []

abbrev pub request_text : Bytes → Bytes → Uri → Bytes → Bytes
request_text user password uri name =
    concat (
      codes "GET "
      ∷ uri.path
      ∷ codes "/"
      ∷ name
      ∷ codes " HTTP/1.0\r\nHost: "
      ∷ uri.host
      ∷ codes "\r\n"
      ∷ [])
    ++ (auth_line user password ++ codes "Connection: close\r\n\r\n")

write_auth-ok :
    (user password out out' : Bytes)
    → All IsByte user
    → All IsByte password
    → length out ≤ 512
    → write_auth user password out ≡ ok out'
    → (out' ≡ out ++ auth_line user password) × (length out' ≤ 512)
unfolding write_auth
write_auth-ok user password out out' hu hp l e =
    elim (Bool-cases (not (is_empty user) || not (is_empty password))) [
      | inr nobody ↦
          let q = sym (ok_inj {E = OtaError} out out' (rw (write_auth, nobody) at e)) in
          (rw nobody (q ∙ sym (append-nil out)), rw q l)
      | inl somebody ↦
          let ((n, auth), a, e₁) =
            bind-ok (ok_or (basic_authorization user password (replicate 192 0)) OtaError.auth)
              (λ x.
                ok_or
                  (write_pieces 512 out
                    (codes "Authorization: " ∷ take x.0 x.1 ∷ codes "\r\n" ∷ []))
                  OtaError.request)
              out' (rw (write_auth, somebody) at e) in
          let text = basic_authorization-encode user password (replicate 192 0) n auth hu hp (
            ok_or-ok (basic_authorization user password (replicate 192 0)) OtaError.auth (n, auth)
              a) in
          let (q, le) =
            write_pieces-concat 512 out (codes "Authorization: " ∷ take n auth ∷ codes "\r\n" ∷ [])
              out' l (ok_or-ok _ OtaError.request out' e₁) in
          (
            rw somebody (
                q ∙ ap (λ t. out ++ concat (codes "Authorization: " ∷ t ∷ codes "\r\n" ∷ [])) text),
            le,
          )
    ]

-- A request that is built is the whole text of a GET of the named file behind the path of the URL,
-- with the host, the Basic credentials if there are any, and `Connection: close`; it has 512 bytes
-- at most. The credentials are bytes.
pub build_request-ok :
    (user password : Bytes) (uri : Uri) (name text : Bytes)
    → All IsByte user
    → All IsByte password
    → build_request user password uri name ≡ ok text
    → (text ≡ request_text user password uri name) × (length text ≤ 512)
unfolding build_request
build_request-ok user password uri name text hu hp e =
    let (out, a, e₁) = bind-ok (ok_or (write_pieces 512 [] first) OtaError.request) _ text e in
    let (out', b, e₂) = bind-ok (write_auth user password out) _ text e₁ in
    let (q, l) =
      write_pieces-concat 512 [] first out (omega arith) (ok_or-ok _ OtaError.request out a) in
    let (q', l') = write_auth-ok user password out out' hu hp l b in
    let (q'', l'') =
      write_pieces-concat 512 out' (codes "Connection: close\r\n\r\n" ∷ []) text l'
        (ok_or-ok _ OtaError.request text e₂) in
    (assembled out out' q q' q'', l'')
  where
    first : List Bytes
    first =
        codes "GET "
        ∷ uri.path
        ∷ codes "/"
        ∷ name
        ∷ codes " HTTP/1.0\r\nHost: "
        ∷ uri.host
        ∷ codes "\r\n"
        ∷ []

    assembled :
        (out out' : Bytes)
        → out ≡ concat first
        → out' ≡ out ++ auth_line user password
        → text ≡ out' ++ concat (codes "Connection: close\r\n\r\n" ∷ [])
        → text ≡ request_text user password uri name
    assembled out out' q q' q'' =
        q''
        ∙ ap (λ t. t ++ codes "Connection: close\r\n\r\n")
            (q' ∙ ap (λ t. t ++ auth_line user password) q)
        ∙ append_assoc (concat first) (auth_line user password) (codes "Connection: close\r\n\r\n")
