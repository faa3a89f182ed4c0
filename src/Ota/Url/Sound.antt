-- ===== src/Ota/Url/Sound.antt =====
-- What a URL that `parse_url` of core/src/ota/mod.rs accepts is made of.
use garagelight.Prelude.{
  ℕ, ◌+◌, ◌-◌, ◌≤◌, ◌<◌, ◌^◌, ◌≡◌, ◌≢◌, ◌↔◌, inl, inr, refl, ◌∙◌, sym, subst, Bool, true, not, ◌&&◌,
  List, [], ◌∷◌, ◌++◌, append_assoc, append-nil, arith, Bytes, All, all, length, length-append,
  if◌then◌else◌, is_empty, rsplit_once, split, Bool-cases, Option-cases,
}
use garagelight.Result.{ok, err, ok_or, bind-ok, ok_inj}
use garagelight.Decimal.{parse_uint}
use garagelight.Decimal.Parse.{parse_uint_le}
use garagelight.Ota.Url.{
  checked_host, UrlError, scheme, project, Uri, valid_host_byte, valid_segment, split_scheme,
  split_path, parse_scheme, parse_port, host_and_port, parse_authority, non_empty, push_segments,
  parse_url,
}

-- A host or a segment: not empty, and made of letters, digits, dots, dashes and underscores.
abbrev pub IsName : Bytes → Type 0
IsName s = (s ≢ []) × All (λ b. valid_host_byte b ≡ true) s

all_iff : (s : Bytes) → (all valid_host_byte s ≡ true) ↔ All (λ b. valid_host_byte b ≡ true) s
all_iff [] = (λ _. tt, λ _. refl)
all_iff (b ∷ s) = (
  λ e. (
    (elim (Bool-cases (valid_host_byte b)) [ inl h ↦ h | inr h ↦ absurd cc ]),
    (all_iff s).0 (elim (Bool-cases (valid_host_byte b)) [ inl h ↦ rw h at e | inr h ↦ absurd cc ]),
  ),
  λ h. rw h.0 ((all_iff s).1 h.1),
)

pub IsName-test : (s : Bytes) → (not (is_empty s) && all valid_host_byte s ≡ true) ↔ IsName s
unfolding is_empty
IsName-test [] = (λ e. cc, λ h. absurd (h.0 refl))
IsName-test (b ∷ s) = (λ e. (λ n. cc, (all_iff (b ∷ s)).0 e), λ h. (all_iff (b ∷ s)).1 h.1)

pub valid_segment_iff : (s : Bytes) → (valid_segment s ≡ true) ↔ IsName s
unfolding valid_segment
valid_segment_iff s = IsName-test s

-- A path: each segment with a slash before it.
abbrev pub join : List Bytes → Bytes
join [] = []
join (s ∷ ss) = b'/' ∷ (s ++ join ss)

push_step :
    (text s : Bytes) (ss : List Bytes) (p : Bytes)
    → push_segments text (s ∷ ss) ≡ ok p
    → (length text + 1 + length s ≤ 192)
      × (valid_segment s ≡ true)
      × (push_segments (text ++ (b'/' ∷ s)) ss ≡ ok p)
unfolding push_segments
push_step text s ss p e = (ground arith, ground arith, ground arith)

push_segments-ok :
    (text : Bytes) (ss : List Bytes) (p : Bytes)
    → length text ≤ 192
    → push_segments text ss ≡ ok p
    → (p ≡ text ++ join ss) × All IsName ss × (length p ≤ 192)
push_segments-ok text [] p l e =
    let q = sym (ok_inj {E = UrlError} text p (unfold push_segments in e)) in
    (q ∙ sym (append-nil text), tt, rw q l)
push_segments-ok text (s ∷ ss) p l e =
    let (fits, good, rest) = push_step text s ss p e in
    let (q, names, le) =
      push_segments-ok (text ++ (b'/' ∷ s)) ss p (omega (arith, length-append text (b'/' ∷ s)))
        rest in
    (q ∙ append_assoc text (b'/' ∷ s) (join ss), ((valid_segment_iff s).0 good, names), le)

parse_port-ok : (s : Bytes) (n : ℕ) → parse_port s ≡ ok n → (1 ≤ n) × (n < 2 ^ 16)
unfolding parse_port
parse_port-ok s n e = elim (Option-cases (parse_uint (2 ^ 16 - 1) s)) [
  | inl e' ↦ absurd (ground arith)
  | inr (m, e') ↦ let le = parse_uint_le (2 ^ 16 - 1) s m e' in (ground arith, ground arith)
]

host_and_port-ok :
    (authority : Bytes) (tls : Bool) (h : Bytes) (n : ℕ)
    → host_and_port authority tls ≡ ok (h, n)
    → (1 ≤ n) × (n < 2 ^ 16)
unfolding host_and_port
host_and_port-ok authority tls h n e = elim (Option-cases (rsplit_once b':' authority)) [
  | inl e' ↦ (ground arith, ground arith)
  | inr ((name, text), e') ↦ ground (arith, parse_port-ok text n)
]

named :
    (name h : Bytes) (number n : ℕ)
    → checked_host name number ≡ ok (h, n)
    → IsName name × (name ≡ h) × (number ≡ n)
unfolding checked_host
named name h number n e = ((IsName-test name).0 (ground arith), ground arith, ground arith)

parse_authority-ok :
    (authority : Bytes) (tls : Bool) (h : Bytes) (n : ℕ)
    → parse_authority authority tls ≡ ok (h, n)
    → IsName h × (1 ≤ n) × (n < 2 ^ 16)
unfolding parse_authority
parse_authority-ok authority tls h n e =
    let ((name, number), q, r) = bind-ok (host_and_port authority tls) _ (h, n) e in
    let (good, same_name, same_number) = named name h number n r in
    let (pos, fits) = host_and_port-ok authority tls name number q in
    (rw (sym same_name) good, rw (sym same_number) pos, rw (sym same_number) fits)

-- What is known of a URL that is accepted for a project.
abbrev pub Parts : Uri → Bytes → Type 0
Parts u last_segment =
    IsName u.host
    × (1 ≤ u.port)
    × (u.port < 2 ^ 16)
    × (length u.path ≤ 192)
    × ((segments : List Bytes) × (u.path ≡ join (segments ++ last_segment ∷ []))
        × All IsName (segments ++ last_segment ∷ []))

Parts-of :
    (u : Uri) (last_segment : Bytes) (tls : Bool) (name : Bytes) (number : ℕ) (text : Bytes)
    (segments : List Bytes)
    → IsName name
    → 1 ≤ number
    → number < 2 ^ 16
    → length text ≤ 192
    → text ≡ join (segments ++ last_segment ∷ [])
    → All IsName (segments ++ last_segment ∷ [])
    → record { tls = tls; host = name; port = number; path = text } ≡ u
    → Parts u last_segment
Parts-of u last_segment tls name number text segments names pos fits le joined all_names q =
    subst (λ v. Parts v last_segment) q (names, pos, fits, le, (segments, joined, all_names))

-- The parts of a URL that is accepted: the host is a name, the port is not 0 and fits 16 bits, and
-- the path has 192 bytes at most and is made of names, the project the last of them, each behind
-- a slash.
pub parse_url-ok :
    (base last_segment : Bytes) (u : Uri)
    → parse_url base last_segment ≡ ok u
    → Parts u last_segment
unfolding parse_url
parse_url-ok base last_segment u e =
    let ((text, rest), _, e₁) = bind-ok (ok_or (split_scheme base) scheme) _ u e in
    let (tls, _, e₂) = bind-ok (parse_scheme text) _ u e₁ in
    let (_, _, e₃) = bind-ok (if valid_segment last_segment then ok tt else err project) _ u e₂ in
    let ((name, number), a, e₄) = bind-ok (parse_authority (split_path rest).0 tls) _ u e₃ in
    let (segments, s, e₅) =
      bind-ok (push_segments [] (non_empty (split b'/' (split_path rest).1) ++ last_segment ∷ [])) _
        u e₄ in
    let (names, pos, fits) = parse_authority-ok (split_path rest).0 tls name number a in
    let (joined, all_names, le) =
      push_segments-ok [] (non_empty (split b'/' (split_path rest).1) ++ last_segment ∷ []) segments
        (omega arith) s in
    Parts-of u last_segment tls name number segments (non_empty (split b'/' (split_path rest).1))
      names pos fits le joined all_names (ok_inj {E = UrlError} _ u e₅)
