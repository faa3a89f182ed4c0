-- ===== src/Ota/Url/RoundTrip.antt =====
-- Every URL of names that fits is read back from its text by `parse_url` of core/src/ota/mod.rs.
use garagelight.Prelude.{
  bytes_eq, All-append, All-map, some, codes, ℕ, ◌+◌, ◌-◌, ◌≤◌, ◌<◌, ◌^◌, ◌≡◌, ◌≢◌, refl, ◌∙◌, sym,
  ap, Bool, true, false, List, [], ◌∷◌, ◌++◌, append_assoc, append-nil, some, arith, Bytes, All,
  All-map, All-append, length, length-append, if◌then◌else◌, is_empty, rsplit_once-Lacks, split,
  split-Lacks, split-append, Lacks, codes, IsDigit,
}
use garagelight.Result.{ok}
use garagelight.Decimal.{decimal}
use garagelight.Decimal.Parse.{parse_uint-decimal}
use garagelight.Decimal.Print.{decimal-IsDigit}
use garagelight.Ota.Url.{
  valid_host_byte, split_scheme, split_path, parse_scheme, parse_port, host_and_port, checked_host,
  parse_authority, non_empty, push_segments, parse_url,
}
use garagelight.Ota.Url.Sound.{IsName, IsName-test, valid_segment_iff, join}

push_segments-join :
    (text : Bytes) (ss : List Bytes)
    → All IsName ss
    → length text + length (join ss) ≤ 192
    → push_segments text ss ≡ ok (text ++ join ss)
unfolding push_segments
push_segments-join text [] h l = ap ok (sym (append-nil text))
push_segments-join text (s ∷ ss) (n, h) l =
    stepped
    ∙ push_segments-join (text ++ (b'/' ∷ s)) ss h (omega (arith, sizes))
    ∙ ap ok (append_assoc text (b'/' ∷ s) (join ss))
  where
    size : length (s ++ join ss) ≡ length s + length (join ss)
    size = length-append s (join ss)

    sizes : length (text ++ (b'/' ∷ s)) + length (join ss) ≡ length text + length (join (s ∷ ss))
    sizes = omega (arith, size, length-append text (b'/' ∷ s))

    stepped : push_segments text (s ∷ ss) ≡ push_segments (text ++ (b'/' ∷ s)) ss
    stepped = ground (arith, size, (valid_segment_iff s).1 n)

IsName-Lacks :
    (b : ℕ) (s : Bytes)
    → valid_host_byte b ≡ false
    → All (λ c. valid_host_byte c ≡ true) s
    → Lacks b s
IsName-Lacks b s bad h = All-map (λ c good. ne c good) s h
  where
    ne : (c : ℕ) → valid_host_byte c ≡ true → c ≢ b
    ne c good e = let clash = sym (ap valid_host_byte e) ∙ good in cc

split-join :
    (s : Bytes) (ss : List Bytes) → IsName s → All IsName ss → split b'/' (s ++ join ss) ≡ s ∷ ss
split-join s [] n h =
    ap (split b'/') (append-nil s) ∙ split-Lacks b'/' s (IsName-Lacks b'/' s refl n.1)
split-join s (t ∷ ts) n (m, h) =
    split-append b'/' s (t ++ join ts) (IsName-Lacks b'/' s refl n.1)
    ∙ ap (◌∷◌ s) (split-join t ts m h)

non_empty-names : (ss : List Bytes) → All IsName ss → non_empty ss ≡ ss
unfolding non_empty is_empty
non_empty-names [] h = refl
non_empty-names ([] ∷ ss) (n, h) = absurd (n.0 refl)
non_empty-names ((c ∷ s) ∷ ss) (n, h) = ap (◌∷◌ (c ∷ s)) (non_empty-names ss h)

non_empty-join : (ss : List Bytes) → All IsName ss → non_empty (split b'/' (join ss)) ≡ ss
unfolding non_empty split is_empty
non_empty-join [] h = refl
non_empty-join (s ∷ ss) (n, h) =
    ap non_empty (split-join s ss n h) ∙ non_empty-names (s ∷ ss) (n, h)

split_path-join :
    (a : Bytes) (ss : List Bytes) → Lacks b'/' a → split_path (a ++ join ss) ≡ (a, join ss)
unfolding split_path
split_path-join [] [] h = refl
split_path-join [] (s ∷ ss) h = refl
split_path-join (c ∷ a) ss (n, h) = ground (arith, split_path-join a ss h)

parse_port-decimal : (n : ℕ) → 1 ≤ n → n < 2 ^ 16 → parse_port (decimal n) ≡ ok n
unfolding parse_port
parse_port-decimal n pos fits = ground (arith, parse_uint-decimal (2 ^ 16 - 1) n (omega arith))

parse_authority-text :
    (tls : Bool) (name : Bytes) (n : ℕ)
    → IsName name
    → 1 ≤ n
    → n < 2 ^ 16
    → parse_authority (name ++ (b':' ∷ decimal n)) tls ≡ ok (name, n)
unfolding parse_authority host_and_port checked_host
parse_authority-text tls name n h pos fits =
    rw
      (
        host_and_port,
        rsplit_once-Lacks b':' name (decimal n) (digits_lack b':' n (omega arith)),
        parse_port-decimal n pos fits,
      )
      (ground (arith, (IsName-test name).1 h))
  where
    digits_lack : (b n : ℕ) → 58 ≤ b → Lacks b (decimal n)
    digits_lack b n g = All-map (λ c d. ne c d) (decimal n) (decimal-IsDigit n)
      where
        ne : (c : ℕ) → IsDigit c → c ≢ b
        ne c d e = omega (arith, d.0, d.1, e)

-- The text of a URL.
abbrev pub url_text : Bool → Bytes → ℕ → List Bytes → Bytes
url_text tls name n segments =
    (if tls then codes "https://" else codes "http://")
    ++ ((name ++ (b':' ∷ decimal n)) ++ join segments)

split_scheme-text :
    (tls : Bool) (rest : Bytes)
    → split_scheme ((if tls then codes "https://" else codes "http://") ++ rest)
      ≡ some ((if tls then codes "https" else codes "http"), rest)
unfolding split_scheme
split_scheme-text true rest = refl
split_scheme-text false rest = refl

parse_scheme-text :
    (tls : Bool) → parse_scheme (if tls then codes "https" else codes "http") ≡ ok tls
unfolding parse_scheme bytes_eq
parse_scheme-text true = refl
parse_scheme-text false = refl

-- A URL with an http or https scheme, a name for its host, a port that is not 0 and fits 16 bits,
-- and names for its path, is read back from its text with the project behind its path, when that
-- path has 192 bytes at most.
pub parse_url-text :
    (tls : Bool) (name : Bytes) (n : ℕ) (segments : List Bytes) (last_segment : Bytes)
    → IsName name
    → 1 ≤ n
    → n < 2 ^ 16
    → All IsName segments
    → IsName last_segment
    → length (join (segments ++ last_segment ∷ [])) ≤ 192
    → parse_url (url_text tls name n segments) last_segment
      ≡ ok
          (record { tls = tls; host = name; port = n; path = join (segments ++ last_segment ∷ []) })
unfolding parse_url
parse_url-text tls name n segments last_segment h pos fits hs hl le =
    rw
      (
        split_scheme-text tls ((name ++ (b':' ∷ decimal n)) ++ join segments),
        parse_scheme-text tls,
        (valid_segment_iff last_segment).1 hl,
        split_path-join (name ++ (b':' ∷ decimal n)) segments authority_lacks,
        parse_authority-text tls name n h pos fits,
        non_empty-join segments hs,
        push_segments-join [] (segments ++ last_segment ∷ [])
            (All-append IsName segments (last_segment ∷ []) hs (hl, tt)) (omega (arith, le)),
      )
      refl
  where
    digit_ne : (c : ℕ) → IsDigit c → c ≢ b'/'
    digit_ne c d e = omega (arith, d.0, d.1, e)

    authority_lacks : Lacks b'/' (name ++ (b':' ∷ decimal n))
    authority_lacks =
        All-append (λ c. c ≢ b'/') name (b':' ∷ decimal n) (IsName-Lacks b'/' name refl h.1)
          ((λ e. absurd (omega (arith, e))), All-map digit_ne (decimal n) (decimal-IsDigit n))
