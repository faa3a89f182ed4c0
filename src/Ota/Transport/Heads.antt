-- ===== src/Ota/Transport/Heads.antt =====
-- A response head as lines, and the proof that the byte-fed parser of core/src/ota/http.rs reads
-- it as such.
use garagelight.Prelude.{
  ℕ, ◌+◌, ◌≤◌, ◌≡◌, ◌≢◌, ◌⊎◌, inl, inr, refl, ◌∙◌, ap, Bool, true, false, ◌&&◌, ◌||◌, List, [], ◌∷◌,
  Option, none, some, arith, Bytes, length, Lacks, leb, ◌==◌, if◌then◌else◌, All,
}
use garagelight.Result.{Result, ok, err, ◌>>=◌}
use garagelight.Ota.Head.Line.{
  HeadError, HeaderUpdate, parse_status, parse_header, transfer_encoding, unexpected_status,
  missing_content_length, duplicate_content_length,
}
use garagelight.Ota.Head.{
  Action, HeadParser, ResponseHead, status, headers, header, set_status, fail, new, act, action,
  finishes,
}
use garagelight.Ota.Transport.{Scan, found, refused, scan}
use garagelight.Ota.Transport.Lines.{resume, live, line_text, scan_line, inside}

-- The first `Content-Length` counts, and a second is an error.
abbrev pub merge : Option ℕ → Option ℕ → Result HeadError (Option ℕ)
merge len none = ok len
merge none (some n) = ok (some n)
merge (some m) (some n) = err duplicate_content_length

abbrev pub collect : Option ℕ → Bool → List Bytes → Result HeadError (Option ℕ × Bool)
collect len te [] = ok (len, te)
collect len te (l ∷ ls) = do
  u ← parse_header l
  len' ← merge len u.content_length
  collect len' (te || u.transfer_encoding) ls

-- A status of 2xx with a length, or 404, and no transfer encoding.
abbrev pub judge : ℕ → Option ℕ × Bool → Result HeadError ResponseHead
judge code (len, true) = err transfer_encoding
judge code (some n, false) =
    if leb 200 code && leb code 299 || code == 404
    then ok (record { status = code; content_length = some n })
    else err unexpected_status
judge code (none, false) =
    if code == 404
    then ok (record { status = code; content_length = none })
    else if leb 200 code && leb code 299
    then err missing_content_length
    else err unexpected_status

-- The head of a status line and header lines, with no parser state.
abbrev pub head_of : Bytes → List Bytes → Result HeadError ResponseHead
head_of status_line ls = do
  code ← parse_status status_line
  found_fields ← collect none false ls
  judge code found_fields

abbrev pub read_as : Result HeadError ResponseHead → Bytes → Scan
read_as (ok h) body = found h body
read_as (err e) body = refused e

-- The bytes of the header lines and the blank line, before the body.
abbrev pub headers_text : List Bytes → Bytes → Bytes
headers_text [] body = line_text [] body
headers_text (l ∷ ls) body = line_text l (headers_text ls body)

abbrev pub headers_size : List Bytes → ℕ
headers_size [] = 2
headers_size (l ∷ ls) = length l + 2 + headers_size ls

-- A header line is not the blank line and holds no line end.
abbrev pub IsHeaderLine : Bytes → Type 0
IsHeaderLine l = (l ≢ []) × Lacks b'\n' l

resume_finish :
    (total code : ℕ) (len : Option ℕ) (te : Bool) (body : Bytes)
    → resume (finishes (live headers total code len te)) body ≡ read_as (judge code (len, te)) body
unfolding finishes resume
resume_finish total code len true body = refl
resume_finish total code none false body = ground arith
resume_finish total code (some n) false body = ground arith

go_on : ℕ → ℕ → Bool → Bytes → Result HeadError (Option ℕ) → Scan
go_on total code te bs (ok len) = scan (live headers total code len te) bs
go_on total code te bs (err e) = refused e

resume_fields :
    (total code : ℕ) (te ute : Bool) (len ulen : Option ℕ) (bs : Bytes)
    → resume
        (act
          (live headers total code len te)
          (header (record { transfer_encoding = ute; content_length = ulen })))
        bs
      ≡ go_on total code (te || ute) bs (merge len ulen)
unfolding act resume go_on
resume_fields total code true true len none bs = refl
resume_fields total code true false len none bs = refl
resume_fields total code false true len none bs = refl
resume_fields total code false false len none bs = refl
resume_fields total code true true none (some n) bs = refl
resume_fields total code true false none (some n) bs = refl
resume_fields total code false true none (some n) bs = refl
resume_fields total code false false none (some n) bs = refl
resume_fields total code true true (some m) (some n) bs = refl
resume_fields total code true false (some m) (some n) bs = refl
resume_fields total code false true (some m) (some n) bs = refl
resume_fields total code false false (some m) (some n) bs = refl

resume_header :
    (total code : ℕ) (len : Option ℕ) (te : Bool) (u : HeaderUpdate) (bs : Bytes)
    → resume (act (live headers total code len te) (header u)) bs
      ≡ go_on total code (te || u.transfer_encoding) bs (merge len u.content_length)
resume_header total code len te u bs =
    resume_fields total code te u.transfer_encoding len u.content_length bs

resume_fail : (p : HeadParser) (e : HeadError) (bs : Bytes) → resume (act p (fail e)) bs ≡ refused e
unfolding act resume
resume_fail p e bs = refl

from_header : Result HeadError HeaderUpdate → Action
from_header r = elim r [ ok update ↦ header update | err error ↦ fail error ]

from_status : Result HeadError ℕ → Action
from_status r = elim r [ ok code ↦ set_status code | err error ↦ fail error ]

action_status : (l : Bytes) → action status l ≡ from_status (parse_status l)
unfolding action from_status
action_status l = refl

action_header_ok :
    (l : Bytes) (u : HeaderUpdate) → l ≢ [] → parse_header l ≡ ok u → action headers l ≡ header u
unfolding action from_header
action_header_ok [] u n e = absurd (n refl)
action_header_ok (c ∷ l) u n e = ap from_header e

action_header_err :
    (l : Bytes) (x : HeadError) → l ≢ [] → parse_header l ≡ err x → action headers l ≡ fail x
unfolding action from_header
action_header_err [] x n e = absurd (n refl)
action_header_err (c ∷ l) x n e = ap from_header e

resume_set :
    (total code : ℕ) (bs : Bytes)
    → resume (act (live status total 0 none false) (set_status code)) bs
      ≡ scan (live headers total code none false) bs
unfolding act resume
resume_set total code bs = refl

Result-cases : {E A : Type 0} (r : Result E A) → ((a : A) × (r ≡ ok a)) ⊎ ((e : E) × (r ≡ err e))
Result-cases (ok a) = inl (a, refl)
Result-cases (err e) = inr (e, refl)

scan_headers :
    (ls : List Bytes) (total code : ℕ) (len : Option ℕ) (te : Bool) (body : Bytes)
    → All IsHeaderLine ls
    → total + headers_size ls ≤ 2048
    → scan (live headers total code len te) (headers_text ls body)
      ≡ read_as (collect len te ls >>= judge code) body
scan_headers [] total code len te body h m =
    scan_line [] (live headers total code len te) body refl refl tt (omega arith)
    ∙ (unfold action act in resume_finish (total + 0 + 2) code len te body)
scan_headers (l ∷ ls) total code len te body ((n, lf), hs) m =
    scan_line l (live headers total code len te) (headers_text ls body) refl refl lf (omega arith)
    ∙ by_header (Result-cases (parse_header l))
        (λ len' te'. scan_headers ls (total + length l + 2) code len' te' body hs (omega arith))
  where
    p : HeadParser
    p = live headers (total + length l + 2) code len te

    Step : Type 0
    Step =
        resume (act p (action headers l)) (headers_text ls body)
        ≡ read_as (collect len te (l ∷ ls) >>= judge code) body

    merged :
        (u : HeaderUpdate) (r : Result HeadError (Option ℕ))
        → ((len' : Option ℕ) (te' : Bool)
            → scan (live headers (total + length l + 2) code len' te') (headers_text ls body)
              ≡ read_as (collect len' te' ls >>= judge code) body)
        → go_on (total + length l + 2) code (te || u.transfer_encoding) (headers_text ls body) r
          ≡ read_as
              ((r >>= λ len'. collect len' (te || u.transfer_encoding) ls) >>= judge code)
              body
    merged u (ok len') ih = unfold go_on in ih len' (te || u.transfer_encoding)
    merged u (err e) ih = unfold go_on in refl

    by_header :
        ((u : HeaderUpdate) × (parse_header l ≡ ok u))
          ⊎ ((e : HeadError) × (parse_header l ≡ err e))
        → ((len' : Option ℕ) (te' : Bool)
            → scan (live headers (total + length l + 2) code len' te') (headers_text ls body)
              ≡ read_as (collect len' te' ls >>= judge code) body)
        → Step
    by_header (inr (e, q)) ih =
        rw (action_header_err l e n q, resume_fail p e (headers_text ls body), q)
    by_header (inl (u, q)) ih =
        rw
          (
            action_header_ok l u n q,
            resume_header (total + length l + 2) code len te u (headers_text ls body),
            q,
          )
          (merged u (merge len u.content_length) ih)

-- Fed the bytes of a status line and of header lines, each ended by CRLF, then a blank line and a
-- body, the parser ends at the blank line with the head, or the error, that the lines have when
-- each is parsed on its own; the body is untouched. The text before the body has 2048 bytes at
-- most, no line holds a line feed, and no header line is empty.
pub scan-head_of :
    (status_line : Bytes) (ls : List Bytes) (body : Bytes)
    → Lacks b'\n' status_line
    → All IsHeaderLine ls
    → length status_line + 2 + headers_size ls ≤ 2048
    → scan new (line_text status_line (headers_text ls body))
      ≡ read_as (head_of status_line ls) body
unfolding new from_status
scan-head_of status_line ls body n hs m =
    scan_line status_line new (headers_text ls body) refl refl n (omega arith)
    ∙ by_status (Result-cases (parse_status status_line))
  where
    total : ℕ
    total = 0 + length status_line + 2

    by_status :
        ((code : ℕ) × (parse_status status_line ≡ ok code))
          ⊎ ((e : HeadError) × (parse_status status_line ≡ err e))
        → resume (act (inside new [] total) (action new.state status_line)) (headers_text ls body)
          ≡ read_as (head_of status_line ls) body
    by_status (inr (e, q)) = rw (
      action_status status_line,
      q,
      resume_fail (live status total 0 none false) e (headers_text ls body),
    )
    by_status (inl (code, q)) =
        rw (action_status status_line, q, resume_set total code (headers_text ls body))
          (scan_headers ls total code none false body hs (omega arith))
