-- ===== src/Prelude/Text.antt =====
-- Byte strings: a `&[u8]` or a `&str` is its list of bytes, and a `u8` a number below 256.
use Prim.Native.Nat.{ℕ, ◌+◌, ◌<◌, ◌≤◌}
use Prim.Native.Char.{code}
use Prim.Native.String.{String}
use mathlib.Core.Path.{◌≡◌, refl}
use mathlib.Core.Logic.{◌↔◌, ◌≢◌}
use mathlib.Core.Bool.{Bool, true, false, ◌&&◌, ◌||◌}
use mathlib.Core.List.{List, [], ◌∷◌, ◌++◌}
use mathlib.Core.Option.{Option, none, some}
use native.Mathlib.Omega.{arith}
use garagelight.Prelude.Tests.{leb, ◌==◌, if◌then◌else◌}
use garagelight.Prelude.Lists.{All}

abbrev pub Bytes : Type 0
Bytes = List ℕ

-- The bytes of a literal; every literal of the sources is ASCII.
abbrev pub codes : String → Bytes
codes String.[] = []
codes (String.◌∷◌ c s) = code c ∷ codes s

abbrev pub IsByte : ℕ → Type 0
IsByte b = b < 256

abbrev pub Lacks : ℕ → Bytes → Type 0
Lacks b = All (λ c. c ≢ b)

-- `==` on slices.
unfoldable pub bytes_eq : Bytes → Bytes → Bool
bytes_eq [] [] = true
bytes_eq (x ∷ xs) (y ∷ ys) = x == y && bytes_eq xs ys
bytes_eq _ _ = false

pub bytes_eq_iff : (a b : Bytes) → (bytes_eq a b ≡ true) ↔ (a ≡ b)
unfolding bytes_eq
bytes_eq_iff (x ∷ a) (y ∷ b) = ground (arith, bytes_eq_iff a b)
bytes_eq_iff _ _ = ground arith

-- u8::is_ascii_digit
abbrev pub is_ascii_digit : ℕ → Bool
is_ascii_digit b = leb b'0' b && leb b b'9'

-- u8::is_ascii_whitespace: space, tab, line feed, form feed and carriage return.
abbrev pub is_ascii_whitespace : ℕ → Bool
is_ascii_whitespace b = b == 32 || b == 9 || b == 10 || b == 12 || b == 13

-- u8::is_ascii_alphanumeric
abbrev pub is_ascii_alphanumeric : ℕ → Bool
is_ascii_alphanumeric b =
    leb b'0' b && leb b b'9' || leb b'A' b && leb b b'Z' || leb b'a' b && leb b b'z'

abbrev pub IsDigit : ℕ → Type 0
IsDigit b = (b'0' ≤ b) × (b ≤ b'9')

-- Iterator::position of a byte, with the text before and behind it: `split_once` at one byte.
unfoldable pub split_once : ℕ → Bytes → Option (Bytes × Bytes)
split_once sep [] = none
split_once sep (c ∷ s) =
    let later = split_once sep s in
    if c == sep then some ([], s) else elim later [ none ↦ none | some (a, b) ↦ some (c ∷ a, b) ]

-- slice::split at a byte: always one part more than there are separators.
unfoldable pub split : ℕ → Bytes → List Bytes
split sep [] = [] ∷ []
split sep (c ∷ s) =
    let parts = split sep s in
    if c == sep then [] ∷ parts else elim parts [ [] ↦ (c ∷ []) ∷ [] | p ∷ ps ↦ (c ∷ p) ∷ ps ]

unfoldable pub starts_with : Bytes → Bytes → Bool
starts_with [] s = true
starts_with (p ∷ ps) [] = false
starts_with (p ∷ ps) (c ∷ s) = p == c && starts_with ps s

unfoldable pub is_empty : Bytes → Bool
is_empty [] = true
is_empty (_ ∷ _) = false

abbrev to_lower : ℕ → ℕ
to_lower c = if leb b'A' c && leb c b'Z' then c + 32 else c

-- slice::eq_ignore_ascii_case
unfoldable pub eq_ignore_ascii_case : Bytes → Bytes → Bool
eq_ignore_ascii_case [] [] = true
eq_ignore_ascii_case (x ∷ xs) (y ∷ ys) = to_lower x == to_lower y && eq_ignore_ascii_case xs ys
eq_ignore_ascii_case _ _ = false

pub split_once-Lacks :
    (sep : ℕ) (a b : Bytes) → Lacks sep a → split_once sep (a ++ (sep ∷ b)) ≡ some (a, b)
unfolding split_once
split_once-Lacks sep [] b h = ground arith
split_once-Lacks sep (c ∷ a) b (h, hs) = ground (arith, split_once-Lacks sep a b hs)

pub split_once-none : (sep : ℕ) (a : Bytes) → Lacks sep a → split_once sep a ≡ none
unfolding split_once
split_once-none sep [] h = refl
split_once-none sep (c ∷ a) (h, hs) = ground (arith, split_once-none sep a hs)

-- str::rsplit_once at one byte: at the last one.
unfoldable pub rsplit_once : ℕ → Bytes → Option (Bytes × Bytes)
rsplit_once sep [] = none
rsplit_once sep (c ∷ s) =
    let later = rsplit_once sep s in
    elim later [ some (a, b) ↦ some (c ∷ a, b) | none ↦ if c == sep then some ([], s) else none ]

pub rsplit_once-none : (sep : ℕ) (a : Bytes) → Lacks sep a → rsplit_once sep a ≡ none
unfolding rsplit_once
rsplit_once-none sep [] h = refl
rsplit_once-none sep (c ∷ a) (h, hs) = ground (arith, rsplit_once-none sep a hs)

pub rsplit_once-Lacks :
    (sep : ℕ) (a b : Bytes) → Lacks sep b → rsplit_once sep (a ++ (sep ∷ b)) ≡ some (a, b)
unfolding rsplit_once
rsplit_once-Lacks sep [] b h = ground (arith, rsplit_once-none sep b h)
rsplit_once-Lacks sep (c ∷ a) b h = ground (arith, rsplit_once-Lacks sep a b h)

pub split-Lacks : (sep : ℕ) (a : Bytes) → Lacks sep a → split sep a ≡ a ∷ []
unfolding split
split-Lacks sep [] h = refl
split-Lacks sep (c ∷ a) (h, hs) = ground (arith, split-Lacks sep a hs)

pub split-append :
    (sep : ℕ) (a b : Bytes) → Lacks sep a → split sep (a ++ (sep ∷ b)) ≡ a ∷ split sep b
unfolding split
split-append sep [] b h = ground arith
split-append sep (c ∷ a) b (h, hs) = ground (arith, split-append sep a b hs)
