-- ===== src/Ota/Head.antt =====
-- The byte-fed parser of a response head: core/src/ota/http.rs. The first `line_len` bytes of the
-- line buffer are the list `line`; what stands behind them is never read.
pub mod Line
pub mod Steps
pub mod Outcome
pub mod Safety
use garagelight.Prelude.{
  ℕ, ◌+◌, Bool, true, false, not, ◌&&◌, ◌||◌, [], ◌∷◌, ◌++◌, Option, none, some, ltb, leb, ◌==◌,
  if◌then◌else◌, Bytes, length,
}
use garagelight.Result.{Result, ok, err}
use Line.{
  HeadError, unexpected_status, transfer_encoding, missing_content_length, duplicate_content_length,
  malformed_header, oversized_header, HeaderUpdate, parse_status, parse_header,
}

abbrev pub max_head_bytes : ℕ
max_head_bytes = 2048

pub record ResponseHead : Type 0 where
  pub status : ℕ
  pub content_length : Option ℕ

pub data HeadEvent : Type 0 where
  need_more : HeadEvent
  complete : ResponseHead → HeadEvent
  reject : HeadError → HeadEvent

pub data State : Type 0 where
  status headers done : State

pub data Action : Type 0 where
  continue : Action
  set_status : ℕ → Action
  header : HeaderUpdate → Action
  finish : Action
  fail : HeadError → Action

pub record HeadParser : Type 0 where
  pub state : State
  pub terminal : Option HeadEvent
  pub line : Bytes
  pub total : ℕ
  pub status : ℕ
  pub content_length : Option ℕ
  pub transfer_encoding : Bool

unfoldable pub new : HeadParser
new = record {
  state = status;
  terminal = none;
  line = [];
  total = 0;
  status = 0;
  content_length = none;
  transfer_encoding = false;
}

-- The bytes read up to the end of the head.
abbrev pub consumed : HeadParser → ℕ
consumed p = p.total

ends_with : HeadParser → HeadEvent → HeadParser × HeadEvent
ends_with p event = (record p { state = done; terminal = some event }, event)

-- The method `reject`.
unfoldable pub rejects : HeadParser → HeadError → HeadParser × HeadEvent
unfolding ends_with
rejects p error = ends_with p (reject error)

-- The method `complete`.
completes : HeadParser → Option ℕ → HeadParser × HeadEvent
unfolding ends_with
completes p length = ends_with p (complete (record { status = p.status; content_length = length }))

-- The method `finish`.
unfoldable pub finishes : HeadParser → HeadParser × HeadEvent
unfolding rejects completes
finishes p =
    if p.transfer_encoding
    then rejects p transfer_encoding
    else if not (leb 200 p.status && leb p.status 299) && not (p.status == 404)
    then rejects p unexpected_status
    else elim p.content_length [
      | some length ↦ completes p (some length)
      | none ↦ if p.status == 404 then completes p none else rejects p missing_content_length
    ]

-- The line without a carriage return at its end.
unfoldable pub strip_cr : Bytes → Bytes
strip_cr [] = []
strip_cr (c ∷ []) = if c == b'\r' then [] else c ∷ []
strip_cr (c ∷ d ∷ s) = c ∷ strip_cr (d ∷ s)

unfoldable pub action : State → Bytes → Action
action status line = elim (parse_status line) [ ok code ↦ set_status code | err error ↦ fail error ]
action headers [] = finish
action headers (c ∷ s) = elim (parse_header (c ∷ s)) [
  | ok update ↦ header update
  | err error ↦ fail error
]
action done line = continue

unfoldable pub new_length : HeadParser → Option ℕ → HeadParser × HeadEvent
unfolding rejects
new_length p none = (p, need_more)
new_length p (some length) = elim p.content_length [
  | some _ ↦ rejects p duplicate_content_length
  | none ↦ (record p { content_length = some length }, need_more)
]

unfoldable pub act : HeadParser → Action → HeadParser × HeadEvent
unfolding rejects finishes new_length
act p continue = (p, need_more)
act p (fail error) = rejects p error
act p (set_status code) = (record p { status = code; state = headers }, need_more)
act p (header update) =
    new_length (if update.transfer_encoding then record p { transfer_encoding = true } else p)
      update.content_length
act p finish = finishes p

-- `push` on a parser that has not ended, with the byte counted.
unfoldable pub push_live : HeadParser → ℕ → HeadParser × HeadEvent
unfolding rejects strip_cr action act
push_live p b =
    if ltb max_head_bytes p.total
    then rejects p oversized_header
    else if not (b == b'\n')
    then (if leb max_head_bytes (length p.line)
        then rejects p malformed_header
        else (record p { line = p.line ++ b ∷ [] }, need_more))
    else act (record p { line = [] }) (action p.state (strip_cr p.line))

unfoldable pub push : HeadParser → ℕ → HeadParser × HeadEvent
push p b = elim p.terminal [
  | some event ↦ (p, event)
  | none ↦ push_live (record p { total = p.total + 1 }) b
]
