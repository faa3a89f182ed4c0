-- ===== src/Ota/Transport.antt =====
-- The HTTP exchange: app/src/ota/transport.rs.
pub mod Lines
pub mod Heads
use garagelight.Prelude.{
  ℕ, ◌+◌, ◌-◌, ◌≤◌, Bool, true, false, not, ◌&&◌, ◌||◌, List, [], ◌∷◌, ◌++◌, Option, none, some,
  ltb, leb, ◌==◌, if◌then◌else◌, Bytes, length,
}
use garagelight.Ota.Head.{HeadParser, HeadEvent, need_more, complete, reject, ResponseHead, push}
use garagelight.Ota.Head.Line.{HeadError}

-- How the bytes of one read end: more are needed, the head is complete with these bytes of the
-- body behind it, or it is refused.
pub data Scan : Type 0 where
  more : HeadParser → Scan
  found : ResponseHead → Bytes → Scan
  refused : HeadError → Scan

-- The inner loop of `get`, over the bytes of one read.
unfoldable pub scan : HeadParser → Bytes → Scan
scan p [] = more p
scan p (b ∷ bs) =
    let (p', event) = push p b in
    let next = scan p' bs in
    elim event [ need_more ↦ next | complete head ↦ found head bs | reject error ↦ refused error ]
