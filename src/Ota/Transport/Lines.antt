-- ===== src/Ota/Transport/Lines.antt =====
-- The byte-fed parser reads a head line by line: `scan` of a text of lines agrees with a parser
-- that is given the lines.
use garagelight.Prelude.{
  ℕ, suc, ◌+◌, ◌≤◌, ◌<◌, ◌≡◌, ◌≢◌, refl, ◌∙◌, sym, ap, Bool, [], ◌∷◌, ◌++◌, Option, none, arith,
  Bytes, length, length-append, append_assoc, append-nil, Lacks,
}
use mathlib.Core.Path.{ap₂}
use garagelight.Ota.Head.{
  HeadParser, HeadEvent, need_more, complete, reject, State, push, act, action, strip_cr,
}
use garagelight.Ota.Head.Steps.{push_going, counted_one, push_live_byte, push_live_line}
use garagelight.Ota.Transport.{Scan, found, refused, scan}

-- The rest of a scan after one push.
unfoldable pub resume : HeadParser × HeadEvent → Bytes → Scan
resume (p, need_more) bs = scan p bs
resume (p, complete head) bs = found head bs
resume (p, reject error) bs = refused error

pub scan_cons : (p : HeadParser) (b : ℕ) (bs : Bytes) → scan p (b ∷ bs) ≡ resume (push p b) bs
unfolding scan resume
scan_cons p b bs = ground arith

-- A parser between two lines.
abbrev pub live : State → ℕ → ℕ → Option ℕ → Bool → HeadParser
live state total code length te = record {
  state = state;
  terminal = none;
  line = [];
  total = total;
  status = code;
  content_length = length;
  transfer_encoding = te;
}

-- A parser inside a line.
abbrev pub inside : HeadParser → Bytes → ℕ → HeadParser
inside p line total = record p { line = line; total = total }

scan_byte :
    (p : HeadParser) (b : ℕ) (bs : Bytes)
    → p.terminal ≡ none
    → b ≢ b'\n'
    → length p.line ≤ p.total
    → p.total < 2048
    → scan p (b ∷ bs) ≡ scan (inside p (p.line ++ b ∷ []) (p.total + 1)) bs
scan_byte p b bs t n l m =
    scan_cons p b bs
    ∙ ap (λ r. resume r bs)
        (push_going p b t ∙ push_live_byte (counted_one p) b (omega arith) n (omega arith))
    ∙ (unfold resume in refl)

inside_eq :
    (p : HeadParser) (l l' : Bytes) (n n' : ℕ) → l ≡ l' → n ≡ n' → inside p l n ≡ inside p l' n'
inside_eq p l l' n n' e f = cc

scan_text :
    (text : Bytes) (p : HeadParser) (bs : Bytes)
    → p.terminal ≡ none
    → Lacks b'\n' text
    → length p.line ≤ p.total
    → p.total + length text ≤ 2048
    → scan p (text ++ bs) ≡ scan (inside p (p.line ++ text) (p.total + length text)) bs
scan_text [] p bs t n l m =
    ap (λ q. scan q bs)
      (inside_eq p p.line (p.line ++ []) p.total (p.total + 0) (sym (append-nil p.line))
        (omega arith))
scan_text (b ∷ text) p bs t (n, ns) l m =
    scan_byte p b (text ++ bs) t n l (omega arith)
    ∙ scan_text text (inside p (p.line ++ b ∷ []) (p.total + 1)) bs t ns
        (omega (arith, length-append p.line (b ∷ []))) (omega arith)
    ∙ ap (λ q. scan q bs)
        (inside_eq p ((p.line ++ b ∷ []) ++ text) (p.line ++ b ∷ text) (p.total + 1 + length text)
          (p.total + suc (length text)) (append_assoc p.line (b ∷ []) text) (omega arith))

strip_cr-append : (l : Bytes) → strip_cr (l ++ b'\r' ∷ []) ≡ l
unfolding strip_cr
strip_cr-append [] = refl
strip_cr-append (c ∷ []) = refl
strip_cr-append (c ∷ d ∷ l) = ap (◌∷◌ c) (strip_cr-append (d ∷ l))

-- A text of a line and its end.
abbrev pub line_text : Bytes → Bytes → Bytes
line_text l rest = l ++ (b'\r' ∷ b'\n' ∷ rest)

scan_newline :
    (p : HeadParser) (bs : Bytes)
    → p.terminal ≡ none
    → p.total < 2048
    → scan p (b'\n' ∷ bs)
      ≡ resume (act (inside p [] (p.total + 1)) (action p.state (strip_cr p.line))) bs
scan_newline p bs t m =
    scan_cons p b'\n' bs
    ∙ ap (λ r. resume r bs) (push_going p b'\n' t ∙ push_live_line (counted_one p) (omega arith))

pub scan_line :
    (l : Bytes) (p : HeadParser) (bs : Bytes)
    → p.terminal ≡ none
    → p.line ≡ []
    → Lacks b'\n' l
    → p.total + length l + 2 ≤ 2048
    → scan p (line_text l bs)
      ≡ resume (act (inside p [] (p.total + length l + 2)) (action p.state l)) bs
scan_line l p bs t e n m =
    scan_text l p (b'\r' ∷ b'\n' ∷ bs) t n (rw e (omega arith)) (omega arith)
    ∙ scan_byte (inside p (p.line ++ l) (p.total + length l)) b'\r' (b'\n' ∷ bs) t (omega arith)
        (omega (arith, length-append p.line l, ap length e)) (omega arith)
    ∙ scan_newline (inside p ((p.line ++ l) ++ b'\r' ∷ []) (p.total + length l + 1)) bs t
        (omega arith)
    ∙ ap₂ (λ a n. resume (act (inside p [] n) (action p.state a)) bs) (rw e (strip_cr-append l))
        (omega arith)
