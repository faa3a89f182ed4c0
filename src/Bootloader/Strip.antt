-- ===== src/Bootloader/Strip.antt =====
-- `strip_comments` of bootloader/build.rs takes out the comments and nothing else.
use garagelight.Prelude.{◌≡◌, ◌≢◌, ◌∙◌, refl, ap, List, [], ◌∷◌, ◌++◌, arith, Bytes, Lacks}
use garagelight.Bootloader.Comments.{code, block, line, strip, strip_comments}

-- A text, piece by piece.
pub data Piece : Type 0 where
  plain : Bytes → Piece
  block_comment : Bytes → Piece
  line_comment : Bytes → Piece

-- The text of the pieces.
abbrev pub print : List Piece → Bytes
print [] = []
print (plain b ∷ ps) = b ++ print ps
print (block_comment b ∷ ps) = b'/' ∷ b'*' ∷ (b ++ (b'*' ∷ b'/' ∷ print ps))
print (line_comment b ∷ ps) = b'/' ∷ b'/' ∷ (b ++ (10 ∷ print ps))

-- What is left without the comments: a line comment leaves its line break.
abbrev pub code_of : List Piece → Bytes
code_of [] = []
code_of (plain b ∷ ps) = b ++ code_of ps
code_of (block_comment b ∷ ps) = code_of ps
code_of (line_comment b ∷ ps) = 10 ∷ code_of ps

-- No mark begins in the text, nor with its last byte.
abbrev pub IsPlain : Bytes → Type 0
IsPlain [] = Unit
IsPlain (c ∷ []) = c ≢ b'/'
IsPlain (c ∷ d ∷ s) = (c ≡ b'/' → (d ≢ b'*') × (d ≢ b'/')) × IsPlain (d ∷ s)

-- The text does not close a block comment.
abbrev pub IsInner : Bytes → Type 0
IsInner [] = Unit
IsInner (c ∷ []) = Unit
IsInner (c ∷ d ∷ s) = (c ≡ b'*' → d ≢ b'/') × IsInner (d ∷ s)

abbrev pub IsText : List Piece → Type 0
IsText [] = Unit
IsText (plain b ∷ ps) = IsPlain b × IsText ps
IsText (block_comment b ∷ ps) = IsInner b × IsText ps
IsText (line_comment b ∷ ps) = Lacks 10 b × IsText ps

strip-plain : (b rest : Bytes) → IsPlain b → strip code (b ++ rest) ≡ b ++ strip code rest
unfolding strip
strip-plain [] rest h = refl
strip-plain (c ∷ []) rest h = ground arith
strip-plain (c ∷ d ∷ s) rest (h, hs) = ground (arith, strip-plain (d ∷ s) rest hs)

strip-block :
    (b rest : Bytes) → IsInner b → strip block (b ++ (b'*' ∷ b'/' ∷ rest)) ≡ strip code rest
unfolding strip
strip-block [] rest h = ground arith
strip-block (c ∷ []) rest h = ground (arith, strip-block [] rest tt)
strip-block (c ∷ d ∷ s) rest (h, hs) = ground (arith, strip-block (d ∷ s) rest hs)

strip-line : (b rest : Bytes) → Lacks 10 b → strip line (b ++ (10 ∷ rest)) ≡ 10 ∷ strip code rest
unfolding strip
strip-line [] rest h = ground arith
strip-line (c ∷ s) rest (h, hs) = ground (arith, strip-line s rest hs)

-- Of a text that is put together from code, block comments and line comments, just the code is left,
-- and the line breaks that end the line comments. The code has no `/` before `/` or `*` and none at
-- its end, a block comment does not hold its own end, and a line comment no line break.
pub strip_comments-print : (ps : List Piece) → IsText ps → strip_comments (print ps) ≡ code_of ps
unfolding strip_comments strip
strip_comments-print [] h = refl
strip_comments-print (plain b ∷ ps) h =
    strip-plain b (print ps) h.0 ∙ ap (λ s. b ++ s) (strip_comments-print ps h.1)
strip_comments-print (block_comment b ∷ ps) h =
    strip-block b (print ps) h.0 ∙ strip_comments-print ps h.1
strip_comments-print (line_comment b ∷ ps) h =
    strip-line b (print ps) h.0 ∙ ap (λ s. 10 ∷ s) (strip_comments-print ps h.1)
