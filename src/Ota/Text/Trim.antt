-- ===== src/Ota/Text/Trim.antt =====
-- `trim_ascii` takes the text out of the whitespace around it.
use garagelight.Prelude.{
  IsDigit, if◌then◌else◌, ◌&&◌, ◌≡◌, ◌≢◌, refl, inl, inr, true, false, ◌∙◌, ap, [], ◌∷◌, ◌++◌,
  arith, Bytes, All, is_ascii_whitespace, Bool-cases,
}
use garagelight.Ota.Text.{trim_start, trim_end, trim_ascii, is_empty}

-- All bytes are whitespace.
abbrev pub IsBlank : Bytes → Type 0
IsBlank = All (λ b. is_ascii_whitespace b ≡ true)

-- Neither end of the text is whitespace; the empty text has no end.
abbrev pub StartsInk : Bytes → Type 0
StartsInk [] = Unit
StartsInk (b ∷ _) = is_ascii_whitespace b ≡ false

abbrev pub EndsInk : Bytes → Type 0
EndsInk [] = Unit
EndsInk (b ∷ []) = is_ascii_whitespace b ≡ false
EndsInk (b ∷ c ∷ cs) = EndsInk (c ∷ cs)

trim_start-append : (ws s : Bytes) → IsBlank ws → StartsInk s → trim_start (ws ++ s) ≡ s
unfolding trim_start
trim_start-append [] [] w k = refl
trim_start-append [] (b ∷ bs) w k = rw k
trim_start-append (b ∷ ws) s (w, w') k = rw w (trim_start-append ws s w' k)

trim_end-blank : (ws : Bytes) → IsBlank ws → trim_end ws ≡ []
unfolding trim_end
trim_end-blank [] w = refl
trim_end-blank (b ∷ ws) (w, w') = ground (arith, trim_end-blank ws w')

trim_end-append : (s ws : Bytes) → IsBlank ws → EndsInk s → trim_end (s ++ ws) ≡ s
unfolding trim_end
trim_end-append [] ws w k = trim_end-blank ws w
trim_end-append (b ∷ []) ws w k = ground (arith, trim_end-blank ws w)
trim_end-append (b ∷ c ∷ cs) ws w k = ground (arith, trim_end-append (c ∷ cs) ws w k)

-- A text whose ends are not whitespace comes out whole from any whitespace around it.
pub trim_ascii-append :
    (before s behind : Bytes)
    → IsBlank before
    → IsBlank behind
    → StartsInk s
    → EndsInk s
    → s ≢ []
    → trim_ascii (before ++ (s ++ behind)) ≡ s
unfolding trim_ascii
trim_ascii-append before [] behind w w' k k' ne = absurd (ne refl)
trim_ascii-append before (b ∷ s) behind w w' k k' ne =
    rw (trim_start-append before (b ∷ (s ++ behind)) w k) (trim_end-append (b ∷ s) behind w' k')

trim_start_lem :
    (s : Bytes)
    → (before : Bytes) × (s ≡ before ++ trim_start s) × IsBlank before × StartsInk (trim_start s)
unfolding trim_start
trim_start_lem [] = ([], refl, tt, tt)
trim_start_lem (b ∷ bs) = elim (Bool-cases (is_ascii_whitespace b)) [
  | inr ink ↦ rw ink ([], refl, tt, ink)
  | inl blank ↦
      let (before, e, w, k) = trim_start_lem bs in
      rw blank (b ∷ before, ap (◌∷◌ b) e, (blank, w), k)
]

trim_end_lem :
    (s : Bytes)
    → (behind : Bytes) × (s ≡ trim_end s ++ behind) × IsBlank behind × EndsInk (trim_end s)
unfolding trim_end
trim_end_lem [] = ([], refl, tt, tt)
trim_end_lem (b ∷ bs) = grow (trim_end bs) (trim_end_lem bs)
  where
    grow :
        (t : Bytes)
        → ((behind : Bytes) × (bs ≡ t ++ behind) × IsBlank behind × EndsInk t)
        → let kept = if is_empty t && is_ascii_whitespace b then [] else b ∷ t in
          (behind : Bytes) × (b ∷ bs ≡ kept ++ behind) × IsBlank behind × EndsInk kept
    grow (c ∷ t) (behind, e, w, k) = (behind, ap (◌∷◌ b) e, w, k)
    grow [] (behind, e, w, k) = elim (Bool-cases (is_ascii_whitespace b)) [
      | inl blank ↦ rw blank (b ∷ behind, ap (◌∷◌ b) e, (blank, w), tt)
      | inr ink ↦ rw ink (behind, ap (◌∷◌ b) e, w, ink)
    ]

trim_end-StartsInk : (s : Bytes) → StartsInk s → StartsInk (trim_end s)
unfolding trim_end
trim_end-StartsInk [] k = tt
trim_end-StartsInk (b ∷ bs) k = rw k (kept (trim_end bs))
  where
    kept : (t : Bytes) → StartsInk (if is_empty t && false then [] else b ∷ t)
    kept [] = k
    kept (c ∷ t) = k

-- The text splits into whitespace, the trimmed text and whitespace, and the trimmed text neither
-- starts nor ends in whitespace.
pub trim_ascii_lem :
    (s : Bytes)
    → (before : Bytes) × (behind : Bytes) × (s ≡ before ++ (trim_ascii s ++ behind))
      × IsBlank before
      × IsBlank behind
      × StartsInk (trim_ascii s)
      × EndsInk (trim_ascii s)
unfolding trim_ascii
trim_ascii_lem s =
    let (before, e, w, k) = trim_start_lem s in
    let (behind, e', w', k') = trim_end_lem (trim_start s) in
    (before, behind, e ∙ ap (λ t. before ++ t) e', w, w', trim_end-StartsInk _ k, k')

digits-StartsInk : (s : Bytes) → All IsDigit s → StartsInk s
digits-StartsInk [] d = tt
digits-StartsInk (b ∷ s) d = ground arith

digits-EndsInk : (s : Bytes) → All IsDigit s → EndsInk s
digits-EndsInk [] d = tt
digits-EndsInk (b ∷ []) d = ground arith
digits-EndsInk (b ∷ c ∷ s) d = digits-EndsInk (c ∷ s) d.1

pub trim_ascii-digits :
    (before s behind : Bytes)
    → IsBlank before
    → IsBlank behind
    → All IsDigit s
    → s ≢ []
    → trim_ascii (before ++ (s ++ behind)) ≡ s
trim_ascii-digits before s behind w w' d ne =
    trim_ascii-append before s behind w w' (digits-StartsInk s d) (digits-EndsInk s d) ne
