-- ===== src/Ota/Head/Steps.antt =====
-- The branches of `push` of core/src/ota/http.rs, as equations.
use garagelight.Prelude.{ℕ, ◌+◌, ◌≤◌, ◌<◌, ◌≡◌, ◌≢◌, [], ◌∷◌, ◌++◌, none, some, arith, length}
use garagelight.Ota.Head.Line.{oversized_header, malformed_header}
use garagelight.Ota.Head.{
  HeadParser, HeadEvent, need_more, push, push_live, act, action, strip_cr, rejects,
}

pub push_ended : (p : HeadParser) (b : ℕ) (e : HeadEvent) → p.terminal ≡ some e → push p b ≡ (p, e)
unfolding push
push_ended p b e h = ground arith

abbrev pub counted_one : HeadParser → HeadParser
counted_one p = record p { total = p.total + 1 }

pub push_going :
    (p : HeadParser) (b : ℕ) → p.terminal ≡ none → push p b ≡ push_live (counted_one p) b
unfolding push
push_going p b h = ground arith

pub push_live_over :
    (p : HeadParser) (b : ℕ) → 2048 < p.total → push_live p b ≡ rejects p oversized_header
unfolding push_live
push_live_over p b h = ground arith

pub push_live_full :
    (p : HeadParser) (b : ℕ)
    → p.total ≤ 2048
    → b ≢ b'\n'
    → 2048 ≤ length p.line
    → push_live p b ≡ rejects p malformed_header
unfolding push_live
push_live_full p b h n l = ground arith

pub push_live_byte :
    (p : HeadParser) (b : ℕ)
    → p.total ≤ 2048
    → b ≢ b'\n'
    → length p.line < 2048
    → push_live p b ≡ (record p { line = p.line ++ b ∷ [] }, need_more)
unfolding push_live
push_live_byte p b h n l = ground arith

pub push_live_line :
    (p : HeadParser)
    → p.total ≤ 2048
    → push_live p b'\n' ≡ act (record p { line = [] }) (action p.state (strip_cr p.line))
unfolding push_live
push_live_line p h = ground arith
