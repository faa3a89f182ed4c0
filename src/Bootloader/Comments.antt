-- ===== src/Bootloader/Comments.antt =====
-- `strip_comments` of bootloader/build.rs.
use garagelight.Prelude.{ℕ, Bool, true, false, ◌&&◌, [], ◌∷◌, ◌==◌, if◌then◌else◌, Bytes}

-- Where the loops stand: in the code, in a block or a line comment, or at the second byte of a mark,
-- which `chars.next()` passes over.
pub data Mode : Type 0 where
  code opening block closing line : Mode

-- `chars.peek()` is this byte.
abbrev pub peeks : ℕ → Bytes → Bool
peeks b [] = false
peeks b (c ∷ _) = c == b

abbrev pub next_mode : Mode → ℕ → Bytes → Mode
next_mode code c rest =
    if c == b'/' && peeks b'*' rest
    then opening
    else if c == b'/' && peeks b'/' rest
    then line
    else code
next_mode opening c rest = block
next_mode block c rest = if c == b'*' && peeks b'/' rest then closing else block
next_mode closing c rest = code
next_mode line c rest = if c == 10 then code else line

-- Whether a byte is pushed to the output.
abbrev pub pushes : Mode → ℕ → Bytes → Bool
pushes code c rest =
    if c == b'/' && peeks b'*' rest
    then false
    else if c == b'/' && peeks b'/' rest
    then false
    else true
pushes opening c rest = false
pushes block c rest = false
pushes closing c rest = false
pushes line c rest = c == 10

unfoldable pub strip : Mode → Bytes → Bytes
strip m [] = []
strip m (c ∷ rest) =
    let later = strip (next_mode m c rest) rest in if pushes m c rest then c ∷ later else later

unfoldable pub strip_comments : Bytes → Bytes
unfolding strip
strip_comments text = strip code text
