-- ===== src/Prelude/Trim.antt =====
-- `str::trim`, on ASCII.
use Prim.Native.Nat.{ℕ}
use mathlib.Core.Path.{◌≡◌, refl}
use mathlib.Core.Logic.{◌≢◌}
use mathlib.Core.Bool.{Bool, true, false, ◌&&◌, ◌||◌}
use mathlib.Core.List.{[], ◌∷◌, ◌++◌}
use native.Mathlib.Omega.{arith}
use garagelight.Prelude.Tests.{leb, ◌==◌, if◌then◌else◌}
use garagelight.Prelude.Lists.{All}
use garagelight.Prelude.Text.{Bytes, is_empty}

-- char::is_whitespace, on ASCII.
abbrev pub is_whitespace : ℕ → Bool
is_whitespace c = leb 9 c && leb c 13 || c == 32

unfoldable pub trim_start : Bytes → Bytes
trim_start [] = []
trim_start (c ∷ s) = let rest = trim_start s in if is_whitespace c then rest else c ∷ s

unfoldable pub trim_end : Bytes → Bytes
trim_end [] = []
trim_end (c ∷ s) =
    let rest = trim_end s in if is_whitespace c && is_empty rest then [] else c ∷ rest

-- str::trim
unfoldable pub trim : Bytes → Bytes
unfolding trim_start trim_end
trim s = trim_end (trim_start s)

-- A byte that `trim` keeps.
abbrev pub IsInk : ℕ → Type 0
IsInk c = is_whitespace c ≡ false

abbrev pub IsSpace : ℕ → Type 0
IsSpace c = is_whitespace c ≡ true

trim_end-spaces : (b : Bytes) → All IsSpace b → trim_end b ≡ []
unfolding trim_end is_empty
trim_end-spaces [] h = refl
trim_end-spaces (c ∷ b) (h, hs) = ground (arith, h, trim_end-spaces b hs)

trim_end-ink : (s b : Bytes) → All IsInk s → All IsSpace b → trim_end (s ++ b) ≡ s
unfolding trim_end
trim_end-ink [] b hs hb = trim_end-spaces b hb
trim_end-ink (c ∷ s) b (h, hs) hb = ground (arith, h, trim_end-ink s b hs hb)

-- A word between white space is trimmed to the word.
pub trim-around :
    (a s b : Bytes)
    → s ≢ []
    → All IsSpace a
    → All IsInk s
    → All IsSpace b
    → trim (a ++ (s ++ b)) ≡ s
unfolding trim trim_start
trim-around [] [] b n ha hs hb = absurd (n refl)
trim-around [] (c ∷ s) b n ha hs hb = ground (arith, hs.0, trim_end-ink (c ∷ s) b hs hb)
trim-around (d ∷ a) s b n ha hs hb = ground (arith, ha.0, trim-around a s b n ha.1 hs hb)
