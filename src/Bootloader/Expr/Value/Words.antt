-- ===== src/Bootloader/Expr/Value/Words.antt =====
-- `eval_expr` of bootloader/build.rs over its terms: what the words are, and how they are read.
use garagelight.Prelude.{
  ℕ, ◌+◌, ◌-◌, ◌*◌, ◌^◌, ◌<◌, ◌≡◌, ◌≢◌, ◌∙◌, refl, sym, ap, Bool, true, false, List, [], ◌∷◌, ◌++◌,
  append-nil, append_assoc, arith, leb, if◌then◌else◌, Bytes, All, All-append, All-map, IsDigit,
  is_empty, ℤ, pos, negsuc,
}
use garagelight.Prelude.Trim.{IsInk, trim-around}
use garagelight.Result.{ok}
use garagelight.Decimal.{decimal}
use garagelight.Decimal.Print.{decimal-IsDigit, decimal-ne-nil}
use garagelight.Bootloader.{trim}
use garagelight.Bootloader.Expr.{Sum, as_i64, plus, less, push_char, eval_loop}
use garagelight.Bootloader.Expr.Value.{decimal-IsInk, Scale, one, kilo, mega, suffix, factor}

-- A term of an expression, with its sign.
pub record Term : Type 0 where
  pub minus : Bool
  pub number : ℕ
  pub scale : Scale

abbrev pub sign_of : Bool → ℕ
sign_of true = b'-'
sign_of false = b'+'

abbrev pub word : Term → Bytes
word t = decimal t.number ++ suffix t.scale

-- Every term with its sign before it and spaces around.
abbrev pub print : List Term → Bytes
print [] = []
print (t ∷ ts) = sign_of t.minus ∷ 32 ∷ ((decimal t.number ++ suffix t.scale) ++ (32 ∷ print ts))

abbrev pub amount : Term → ℕ
amount t = t.number * factor t.scale

-- The sums of the terms that are added, and of those that are subtracted.
abbrev pub added : List Term → ℕ
added [] = 0
added (t ∷ ts) = (if t.minus then 0 else amount t) + added ts

abbrev pub subtracted : List Term → ℕ
subtracted [] = 0
subtracted (t ∷ ts) = (if t.minus then amount t else 0) + subtracted ts

-- `p - n` as an integer.
abbrev pub diff : ℕ → ℕ → ℤ
diff p n = if leb n p then pos (p - n) else negsuc (n - p - 1)

pub plus-diff : (p n k : ℕ) → plus (diff p n) k ≡ diff (p + k) n
unfolding plus
plus-diff p n k = ground arith

pub less-diff : (p n k : ℕ) → less (diff p n) k ≡ diff p (n + k)
unfolding less
less-diff p n k = ground arith

pub as_i64-diff : (p n : ℕ) → p + n < 2 ^ 63 → as_i64 (diff p n) ≡ ok (diff p n)
as_i64-diff p n h = ground arith

-- A byte that is no sign.
abbrev pub IsLetter : ℕ → Type 0
IsLetter c = (c ≢ b'+') × (c ≢ b'-')

push_letter :
    (c : ℕ) (s : Sum) → IsLetter c → push_char c s ≡ ok (record s { term = s.term ++ (c ∷ []) })
unfolding push_char
push_letter c s h = ground arith

pub push_letters :
    (s rest : Bytes) (total : ℤ) (m : Bool) (term : Bytes)
    → All IsLetter s
    → eval_loop (s ++ rest) (record { total = total; minus = m; term = term })
      ≡ eval_loop rest (record { total = total; minus = m; term = term ++ s })
unfolding eval_loop
push_letters [] rest total m term h =
    ap (λ z. eval_loop rest (record { total = total; minus = m; term = z })) (sym (append-nil term))
push_letters (c ∷ s) rest total m term (h, hs) =
    rw (eval_loop, push_letter c (record { total = total; minus = m; term = term }) h)
      (push_letters s rest total m (term ++ (c ∷ [])) hs
        ∙ ap (λ z. eval_loop rest (record { total = total; minus = m; term = z }))
            (append_assoc term (c ∷ []) s))

suffix-IsInk : (u : Scale) → All IsInk (suffix u)
suffix-IsInk one = tt
suffix-IsInk kilo = (refl, tt)
suffix-IsInk mega = (refl, tt)

suffix-IsLetter : (u : Scale) → All IsLetter (suffix u)
suffix-IsLetter one = tt
suffix-IsLetter kilo = omega arith
suffix-IsLetter mega = omega arith

digit-IsLetter : (c : ℕ) → IsDigit c → IsLetter c
digit-IsLetter c h = omega arith

word-IsInk : (t : Term) → All IsInk (word t)
word-IsInk t =
    All-append IsInk (decimal t.number) (suffix t.scale) (decimal-IsInk t.number)
      (suffix-IsInk t.scale)

pub word-IsLetter : (t : Term) → All IsLetter (word t)
word-IsLetter t =
    All-append IsLetter (decimal t.number) (suffix t.scale)
      (All-map digit-IsLetter (decimal t.number) (decimal-IsDigit t.number))
      (suffix-IsLetter t.scale)

append-ne-nil : (a b : Bytes) → a ≢ [] → is_empty (a ++ b) ≡ false
unfolding is_empty
append-ne-nil [] b n = absurd (n refl)
append-ne-nil (c ∷ a) b n = refl

pub word_shown : (t : Term) → is_empty (word t) ≡ false
word_shown t = append-ne-nil (decimal t.number) (suffix t.scale) (decimal-ne-nil t.number)

shown-ne-nil : (a : Bytes) → is_empty a ≡ false → a ≢ []
unfolding is_empty
shown-ne-nil [] h e = cc h
shown-ne-nil (c ∷ a) h e = cc

pub trim-padded : (t : Term) → trim (32 ∷ (word t ++ (32 ∷ []))) ≡ word t
trim-padded t =
    trim-around (32 ∷ []) (word t) (32 ∷ []) (shown-ne-nil (word t) (word_shown t)) (refl, tt)
      (word-IsInk t) (refl, tt)

pub amount_bound :
    (t : Term) (p n a b : ℕ)
    → p + n + ((if t.minus then 0 else amount t) + a) + ((if t.minus then amount t else 0) + b)
      < 2 ^ 63
    → amount t + p + n < 2 ^ 63
amount_bound t p n a b h = by_minus t.minus (amount t) h
  where
    by_minus :
        (m : Bool) (k : ℕ)
        → p + n + ((if m then 0 else k) + a) + ((if m then k else 0) + b) < 2 ^ 63
        → k + p + n < 2 ^ 63
    by_minus true k l = omega arith
    by_minus false k l = omega arith
