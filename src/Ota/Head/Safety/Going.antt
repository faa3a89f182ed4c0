-- ===== src/Ota/Head/Safety/Going.antt =====
-- What a head parser of core/src/ota/http.rs does over the bytes of one read.
use garagelight.Prelude.{
  ℕ, suc, ◌+◌, ◌<◌, ◌≡◌, ◌≢◌, refl, ◌∙◌, sym, ap, [], ◌∷◌, none, some, arith, Bytes, length,
}
use native.Mathlib.Decide.{dec_lt, ℕ_discrete}
use garagelight.Ota.Head.Line.{oversized_header}
use garagelight.Ota.Head.Steps.{
  push_going, counted_one, push_live_over, push_live_byte, push_live_line,
}
use garagelight.Ota.Head.{
  HeadParser, HeadEvent, need_more, complete, reject, done, push, push_live, action, strip_cr,
}
use garagelight.Ota.Head.Safety.{Inv, push_live-total, push-Inv, recorded}
use garagelight.Ota.Head.Outcome.{IsAcceptable, Outcome, act-Outcome, rejects-ne-need_more}
use garagelight.Ota.Transport.{Scan, more, found, refused, scan}
use garagelight.Ota.Transport.Lines.{resume, scan_cons}

push_live_going :
    (p : HeadParser) (b : ℕ)
    → p.terminal ≡ none
    → p.state ≢ done
    → length p.line < p.total
    → (push_live p b).1 ≡ need_more
    → (push_live p b).0.terminal ≡ none
push_live_going p b t n l e = elim (dec_lt 2048 p.total) [
  | yes over ↦
      absurd (
        rejects-ne-need_more p oversized_header (sym (ap (λ r. r.1) (push_live_over p b over)) ∙ e))
  | no fits ↦ elim (ℕ_discrete b b'\n') [
    | yes newline ↦
        rw (newline, push_live_line p (omega arith))
          (went (act-Outcome (record p { line = [] }) (action p.state (strip_cr p.line)) t n)
            (rw (newline, push_live_line p (omega arith)) at e))
    | no other ↦ rw (push_live_byte p b (omega arith) other (omega arith)) t
  ]
]
  where
    went :
        {q : HeadParser} {r : HeadParser × HeadEvent}
        → Outcome q r
        → r.1 ≡ need_more
        → r.0.terminal ≡ none
    went o h = ground (arith, o.ends)

push-going :
    (p : HeadParser) (b : ℕ)
    → Inv p
    → p.terminal ≡ none
    → (push p b).1 ≡ need_more
    → ((push p b).0.terminal ≡ none) × ((push p b).0.total ≡ p.total + 1)
push-going p b v t e = (
  rw (push_going p b t) (
      push_live_going (counted_one p) b t (λ d. v.ended d t) (omega (arith, v.line_counted))
        (rw (push_going p b t) at e)),
  ap (λ r. r.0.total) (push_going p b t)
      ∙ push_live-total (counted_one p) b t (λ d. v.ended d t) (omega (arith, v.line_counted)),
)

-- What the scan of a number of bytes may come to.
abbrev pub Scanned : ℕ → ℕ → Scan → Type 0
Scanned total size (more p) = Inv p × (p.terminal ≡ none) × (p.total ≡ total + size)
Scanned total size (found head rest) = IsAcceptable head × (length rest < size)
Scanned total size (refused e) = Unit

Scanned-suc :
    (total total' size : ℕ) (s : Scan)
    → total' ≡ total + 1
    → Scanned total' size s
    → Scanned total (suc size) s
Scanned-suc total total' size (more p) e (v, t, c) = (v, t, omega (arith, c, e))
Scanned-suc total total' size (found head rest) e (a, l) = (a, omega (arith, l))
Scanned-suc total total' size (refused x) e h = tt

resume-Scanned :
    (total : ℕ) (bs : Bytes) (r : HeadParser × HeadEvent)
    → (r.1 ≡ need_more → (r.0.total ≡ total + 1) × Scanned r.0.total (length bs) (scan r.0 bs))
    → ((e : HeadEvent) → r.1 ≡ e → e ≢ need_more → r.0.terminal ≡ some e)
    → Inv r.0
    → Scanned total (suc (length bs)) (resume r bs)
unfolding resume
resume-Scanned total bs (p, need_more) go ends v =
    let (c, s) = go refl in Scanned-suc total p.total (length bs) (scan p bs) c s
resume-Scanned total bs (p, complete head) go ends v =
    (v.sound head (ends (complete head) refl (λ n. cc)), omega arith)
resume-Scanned total bs (p, reject error) go ends v = tt

pub scan-Scanned :
    (p : HeadParser) (bs : Bytes)
    → Inv p
    → p.terminal ≡ none
    → Scanned p.total (length bs) (scan p bs)
scan-Scanned p [] v t = unfold scan in (v, t, omega arith)
scan-Scanned p (b ∷ bs) v t = rw (scan_cons p b bs) (
    resume-Scanned p.total bs (push p b)
      (λ e.
        let (t', c) = push-going p b v t e in (c, scan-Scanned (push p b).0 bs (push-Inv p b v) t'))
      (λ e q n. recorded p b v (λ m. n (sym q ∙ m)) ∙ ap some q) (push-Inv p b v))
