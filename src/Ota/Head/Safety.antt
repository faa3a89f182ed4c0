-- ===== src/Ota/Head/Safety.antt =====
-- What holds of the head parser of core/src/ota/http.rs whatever bytes it is fed.
pub mod Going
use garagelight.Prelude.{
  ◌+◌, sym, suc, ◌∙◌, ap, ℕ, ◌≤◌, ◌<◌, ◌≡◌, ◌≢◌, ◌⊎◌, inl, inr, refl, false, [], ◌∷◌, none, some,
  arith, Bytes, length, length-append, Option-cases,
}
use native.Mathlib.Decide.{dec_lt, ℕ_discrete}
use garagelight.Ota.Head.Line.{oversized_header, HeadError}
use garagelight.Ota.Head.Steps.{
  push_ended, push_going, counted_one, push_live_over, push_live_byte, push_live_line,
}
use garagelight.Ota.Head.{
  HeaderUpdate, HeadParser, HeadEvent, need_more, complete, ResponseHead, done, Action, continue,
  set_status, header, finish, fail, new, push, push_live, act, action, strip_cr, rejects, finishes,
  new_length,
}
use garagelight.Ota.Head.Outcome.{
  IsAcceptable, Outcome, act-Outcome, rejects-Outcome, rejects-ne-need_more,
}

-- What holds between two bytes.
pub record Inv (p : HeadParser) : Type 0 where
  pub line_fits : length p.line ≤ 2048
  pub line_counted : length p.line ≤ p.total
  pub counted : p.total ≤ 2049
  pub going : p.terminal ≡ none → p.total ≤ 2048
  pub ended : p.state ≡ done → p.terminal ≢ none
  pub final : (e : HeadEvent) → p.terminal ≡ some e → e ≢ need_more
  pub sound : (h : ResponseHead) → p.terminal ≡ some (complete h) → IsAcceptable h

Outcome-Inv :
    {p : HeadParser} {r : HeadParser × HeadEvent}
    → p.state ≢ done
    → length p.line ≤ 2048
    → length p.line ≤ p.total
    → p.total ≤ 2049
    → (p.total ≡ 2049 → r.1 ≢ need_more)
    → Outcome p r
    → Inv r.0
Outcome-Inv {p} {r} n l c t full o = record {
  line_fits = rw o.line_same l;
  line_counted = rw (o.line_same, o.total_same) c;
  counted = rw o.total_same t;
  going = ground (arith, o.total_same, o.ends);
  ended = ground (arith, o.done_ends, o.ends);
  final = λ e h. ground (arith, o.ends);
  sound = λ h e. o.sound h (ground (arith, o.ends));
}

-- The state of a parser that an ended head left behind does not matter: only a going one steps.
push_live-Inv :
    (p : HeadParser) (b : ℕ)
    → p.terminal ≡ none
    → p.state ≢ done
    → length p.line < p.total
    → p.total ≤ 2049
    → Inv (push_live p b).0
push_live-Inv p b t n l m = elim (dec_lt 2048 p.total) [
  | yes over ↦ rw (push_live_over p b over) (
      Outcome-Inv n (omega arith) (omega arith) m (λ _. rejects-ne-need_more p oversized_header)
        (rejects-Outcome p oversized_header))
  | no fits ↦ elim (ℕ_discrete b b'\n') [
    | yes newline ↦
        rw (newline, push_live_line p (omega arith))
          (Outcome-Inv {p = record p { line = [] }} n (omega arith) (omega arith) m
            (λ e. absurd (omega arith))
            (act-Outcome (record p { line = [] }) (action p.state (strip_cr p.line)) t n))
    | no other ↦ rw (push_live_byte p b (omega arith) other (omega arith)) (record {
      line_fits = omega (arith, length-append p.line (b ∷ []));
      line_counted = omega (arith, length-append p.line (b ∷ []));
      counted = m;
      going = λ _. omega arith;
      ended = λ e. absurd (n e);
      final = λ e h. cc;
      sound = λ h e. cc;
    })
  ]
]

push-Inv : (p : HeadParser) (b : ℕ) → Inv p → Inv (push p b).0
push-Inv p b v = elim (Option-cases p.terminal) [
  | inr (e, h) ↦ rw (push_ended p b e h) v
  | inl h ↦ rw (push_going p b h) (
      push_live-Inv (counted_one p) b h (λ e. v.ended e h) (omega (arith, v.line_counted))
        (omega (arith, v.going h)))
]

ends_recorded :
    {r : HeadParser × HeadEvent} {p : HeadParser}
    → Outcome p r
    → r.1 ≢ need_more
    → r.0.terminal ≡ some r.1
ends_recorded o h = ground (arith, o.ends)

push_live_recorded :
    (p : HeadParser) (b : ℕ)
    → p.terminal ≡ none
    → p.state ≢ done
    → (push_live p b).1 ≢ need_more
    → length p.line < p.total
    → p.total ≤ 2049
    → (push_live p b).0.terminal ≡ some (push_live p b).1
push_live_recorded p b t n h l m = elim (dec_lt 2048 p.total) [
  | yes over ↦
      rw (push_live_over p b over) (
        ends_recorded (rejects-Outcome p oversized_header)
          (rejects-ne-need_more p oversized_header))
  | no fits ↦ elim (ℕ_discrete b b'\n') [
    | yes newline ↦
        rw (newline, push_live_line p (omega arith))
          (ends_recorded
            (act-Outcome (record p { line = [] }) (action p.state (strip_cr p.line)) t n)
            (rw (newline, push_live_line p (omega arith)) at h))
    | no other ↦ absurd (h (ap (λ r. r.1) (push_live_byte p b (omega arith) other (omega arith))))
  ]
]

-- An event that ends the head is recorded.
recorded :
    (p : HeadParser) (b : ℕ)
    → Inv p
    → (push p b).1 ≢ need_more
    → (push p b).0.terminal ≡ some (push p b).1
recorded p b v h = elim (Option-cases p.terminal) [
  | inr (e, t) ↦ rw (push_ended p b e t) t
  | inl t ↦ rw (push_going p b t) (
      push_live_recorded (counted_one p) b t (λ e. v.ended e t) (rw (push_going p b t) at h)
        (omega (arith, v.line_counted)) (omega (arith, v.going t)))
]

-- The parser after some bytes.
unfoldable pub feed : HeadParser → Bytes → HeadParser
feed p [] = p
feed p (b ∷ bs) = feed (push p b).0 bs

feed-Inv-from : (p : HeadParser) (bs : Bytes) → Inv p → Inv (feed p bs)
unfolding feed
feed-Inv-from p [] v = v
feed-Inv-from p (b ∷ bs) v = feed-Inv-from (push p b).0 bs (push-Inv p b v)

new-Inv : Inv new
unfolding new
new-Inv = record {
  line_fits = omega arith;
  line_counted = omega arith;
  counted = omega arith;
  going = λ _. omega arith;
  ended = λ e. cc;
  final = λ e h. cc;
  sound = λ h e. cc;
}

-- Whatever bytes a new parser is fed, its line stays within the buffer of 2048 bytes, it counts at
-- most 2049 bytes and at most 2048 while it goes on, it is never in its last state without an event
-- that ends the head, and a head that it hands on has a status of 2xx or 404 and has a length unless
-- the status is 404.
pub feed-Inv : (bs : Bytes) → Inv (feed new bs)
feed-Inv bs = feed-Inv-from new bs new-Inv

-- Once an event ends the head, every later byte leaves the parser as it is and gives that event.
pub push_after_end :
    (bs : Bytes) (b c : ℕ)
    → (push (feed new bs) b).1 ≢ need_more
    → push (push (feed new bs) b).0 c ≡ push (feed new bs) b
push_after_end bs b c h = push_ended (push p b).0 c (push p b).1 (recorded p b (feed-Inv bs) h)
  where
    p : HeadParser
    p = feed new bs

feed_ended : (p : HeadParser) (bs : Bytes) (e : HeadEvent) → p.terminal ≡ some e → feed p bs ≡ p
unfolding feed
feed_ended p [] e t = refl
feed_ended p (b ∷ bs) e t = ap (λ r. feed r.0 bs) (push_ended p b e t) ∙ feed_ended p bs e t

push_live-total :
    (p : HeadParser) (b : ℕ)
    → p.terminal ≡ none
    → p.state ≢ done
    → length p.line < p.total
    → (push_live p b).0.total ≡ p.total
push_live-total p b t n l = elim (dec_lt 2048 p.total) [
  | yes over ↦ rw (push_live_over p b over) ((rejects-Outcome p oversized_header).total_same)
  | no fits ↦ elim (ℕ_discrete b b'\n') [
    | yes newline ↦
        rw (newline, push_live_line p (omega arith))
          ((act-Outcome (record p { line = [] }) (action p.state (strip_cr p.line)) t n).total_same)
    | no other ↦ rw (push_live_byte p b (omega arith) other (omega arith))
  ]
]

feed-total :
    (p : HeadParser) (bs : Bytes)
    → Inv p
    → (feed p bs).terminal ≡ none
    → (feed p bs).total ≡ p.total + length bs
unfolding feed
feed-total p [] v h = omega arith
feed-total p (b ∷ bs) v h =
    go (Option-cases p.terminal) (feed-total (push p b).0 bs (push-Inv p b v) h)
  where
    go :
        (p.terminal ≡ none) ⊎ ((e : HeadEvent) × (p.terminal ≡ some e))
        → (feed (push p b).0 bs).total ≡ (push p b).0.total + length bs
        → (feed (push p b).0 bs).total ≡ p.total + suc (length bs)
    go (inr (e, t)) ih =
        absurd (none-ne-some (sym h ∙ ap (λ q. q.terminal) (feed_ended p (b ∷ bs) e t) ∙ t))
      where
        none-ne-some : none ≡ some e → ⊥
        none-ne-some x = cc
    go (inl t) ih = omega (
      arith,
      ih,
      ap (λ r. r.0.total) (push_going p b t),
      push_live-total (counted_one p) b t (λ e. v.ended e t) (omega (arith, v.line_counted)),
    )

-- A head never takes more than 2048 bytes: once more have been fed, some event has ended it.
pub feed_ends : (bs : Bytes) → 2048 < length bs → (feed new bs).terminal ≢ none
feed_ends bs h t = omega (arith, feed-total new bs new-Inv t, (feed-Inv bs).going t, new-total)
  where
    new-total : new.total ≡ 0
    new-total = unfold new in refl
