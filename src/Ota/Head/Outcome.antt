-- ===== src/Ota/Head/Outcome.antt =====
-- How a step of the head parser of core/src/ota/http.rs ends.
use garagelight.Prelude.{◌≤◌, ◌≡◌, ◌≢◌, ◌⊎◌, inl, inr, refl, none, some, arith}
use garagelight.Ota.Head.Line.{HeadError}
use garagelight.Ota.Head.{
  HeaderUpdate, HeadParser, HeadEvent, need_more, complete, ResponseHead, done, Action, continue,
  set_status, header, finish, fail, act, rejects, finishes, new_length,
}

-- A head that the parser may hand on: a status of 2xx or 404, and a length unless it is 404.
pub record IsAcceptable (h : ResponseHead) : Type 0 where
  pub status_known : ((200 ≤ h.status) × (h.status ≤ 299)) ⊎ (h.status ≡ 404)
  pub length_known : h.content_length ≡ none → h.status ≡ 404

-- How a step from `p` ends: the parser goes on, or its event is recorded for good.
pub record Outcome (p : HeadParser) (r : HeadParser × HeadEvent) : Type 0 where
  pub total_same : r.0.total ≡ p.total
  pub line_same : r.0.line ≡ p.line
  pub ends :
      ((r.0.terminal ≡ none) × (r.1 ≡ need_more)) ⊎ ((r.0.terminal ≡ some r.1) × (r.1 ≢ need_more))
  pub done_ends : r.0.state ≡ done → (p.state ≡ done) ⊎ (r.1 ≢ need_more)
  pub sound : (h : ResponseHead) → r.1 ≡ complete h → IsAcceptable h

pub rejects-ne-need_more : (p : HeadParser) (e : HeadError) → (rejects p e).1 ≢ need_more
unfolding rejects
rejects-ne-need_more p e = λ n. cc

pub rejects-Outcome : (p : HeadParser) (e : HeadError) → Outcome p (rejects p e)
unfolding rejects
rejects-Outcome p e = record {
  total_same = refl;
  line_same = refl;
  ends = inr (refl, λ n. cc);
  done_ends = λ _. inr (λ n. cc);
  sound = λ h n. cc;
}

finishes-Outcome : (p : HeadParser) → Outcome p (finishes p)
unfolding finishes
finishes-Outcome p = record {
  total_same = ground arith;
  line_same = ground arith;
  ends = ground arith;
  done_ends = ground arith;
  sound = λ h e. record { status_known = ground arith; length_known = ground arith };
}

pub act-Outcome :
    (p : HeadParser) (a : Action) → p.terminal ≡ none → p.state ≢ done → Outcome p (act p a)
act-Outcome p continue t n = record {
  total_same = unfold act in refl;
  line_same = unfold act in refl;
  ends = unfold act in inl (t, refl);
  done_ends = unfold act in λ e. inl e;
  sound = unfold act in λ h e. cc;
}
act-Outcome p (fail error) t n = unfold act in rejects-Outcome p error
act-Outcome p (set_status code) t n = record {
  total_same = unfold act in refl;
  line_same = unfold act in refl;
  ends = unfold act in inl (t, refl);
  done_ends = unfold act in λ e. cc;
  sound = unfold act in λ h e. cc;
}
act-Outcome p (header update) t n = header-Outcome p update t n
  where
    header-Outcome :
        (p : HeadParser) (u : HeaderUpdate)
        → p.terminal ≡ none
        → p.state ≢ done
        → Outcome p (act p (header u))
    header-Outcome p u t n =
        unfold act new_length rejects in
        record {
          total_same = ground arith;
          line_same = ground arith;
          ends = ground arith;
          done_ends = ground arith;
          sound = λ h e. absurd (ground arith);
        }
act-Outcome p finish t n = unfold act in finishes-Outcome p
