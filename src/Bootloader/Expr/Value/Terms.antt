-- ===== src/Bootloader/Expr/Value/Terms.antt =====
-- `eval_expr` of bootloader/build.rs over a whole expression.
use garagelight.Prelude.{
  ℕ, ◌+◌, ◌^◌, ◌<◌, ◌≡◌, ◌∙◌, ◌⊎◌, inl, inr, refl, sym, ap, ap_at, Bool, true, false, List, [], ◌∷◌,
  ◌++◌, append_assoc, arith, ◌==◌, if◌then◌else◌, Bytes, All-append, is_empty,
}
use garagelight.Result.{Result, ok}
use garagelight.Bootloader.{Panic, trim, trim_start, trim_end}
use garagelight.Bootloader.Expr.{
  Sum, empty, parse_term, end_term, push_char, eval_loop, as_u32, eval_expr,
}
use garagelight.Bootloader.Expr.Value.{parse_term-decimal}
use garagelight.Bootloader.Expr.Value.Words.{
  Term, sign_of, word, print, amount, added, subtracted, diff, plus-diff, less-diff, as_i64-diff,
  IsLetter, push_letters, word-IsLetter, word_shown, trim-padded, amount_bound,
}

-- The sign behind a term, when the term has the value `v`.
summed :
    (c p n v : ℕ) (m : Bool) (term : Bytes)
    → is_empty (trim term) ≡ false
    → parse_term (trim term) ≡ ok v
    → v + p + n < 2 ^ 63
    → end_term c (record { total = diff p n; minus = m; term = term })
      ≡ ok (record {
        total = diff (p + (if m then 0 else v)) (n + (if m then v else 0));
        minus = c == b'-';
        term = [];
      })
unfolding end_term
summed c p n v true term shown value h =
    rw (end_term, shown, value, less-diff p n v, as_i64-diff p (n + v) (omega arith))
      (ap_at (λ z. ok (record { total = diff z (n + v); minus = c == b'-'; term = [] })) p (p + 0)
        (omega arith))
summed c p n v false term shown value h =
    rw (end_term, shown, value, plus-diff p n v, as_i64-diff (p + v) n (omega arith))
      (ap_at (λ z. ok (record { total = diff (p + v) z; minus = c == b'-'; term = [] })) n (n + 0)
        (omega arith))

end_term-word :
    (c p n : ℕ) (t : Term)
    → amount t + p + n < 2 ^ 63
    → end_term c (record { total = diff p n; minus = t.minus; term = 32 ∷ (word t ++ (32 ∷ [])) })
      ≡ ok (record {
        total =
            diff (p + (if t.minus then 0 else amount t)) (n + (if t.minus then amount t else 0));
        minus = c == b'-';
        term = [];
      })
end_term-word c p n t h =
    summed c p n (amount t) t.minus (32 ∷ (word t ++ (32 ∷ [])))
      (ap is_empty (trim-padded t) ∙ word_shown t)
      (ap parse_term (trim-padded t) ∙ parse_term-decimal t.number t.scale (omega arith)) h

abbrev state : ℕ → ℕ → Bool → Bytes → Sum
state p n m term = record { total = diff p n; minus = m; term = term }

push_sign : (c : ℕ) (s : Sum) → (c ≡ b'+') ⊎ (c ≡ b'-') → push_char c s ≡ end_term c s
unfolding push_char
push_sign c s h = ground arith

eval_sign :
    (c : ℕ) (rest : Bytes) (s s' : Sum)
    → (c ≡ b'+') ⊎ (c ≡ b'-')
    → end_term c s ≡ ok s'
    → eval_loop (c ∷ rest) s ≡ eval_loop rest s'
unfolding eval_loop
eval_sign c rest s s' h e = rw (eval_loop, push_sign c s h ∙ e) refl

eval_word :
    (p n : ℕ) (m : Bool) (t : Term) (rest : Bytes)
    → eval_loop (32 ∷ (word t ++ (32 ∷ rest))) (state p n m [])
      ≡ eval_loop rest (state p n m (32 ∷ (word t ++ (32 ∷ []))))
eval_word p n m t rest =
    ap (λ z. eval_loop (32 ∷ z) (state p n m [])) (sym (append_assoc (word t) (32 ∷ []) rest))
    ∙ push_letters (32 ∷ (word t ++ (32 ∷ []))) rest (diff p n) m []
        ((omega arith, All-append IsLetter (word t) (32 ∷ []) (word-IsLetter t) (omega arith)))

sign-cases : (m : Bool) → (sign_of m ≡ b'+') ⊎ (sign_of m ≡ b'-')
sign-cases true = inr refl
sign-cases false = inl refl

sign-minus : (m : Bool) → (sign_of m == b'-') ≡ m
sign-minus true = refl
sign-minus false = refl

same_state :
    (p p' n n' : ℕ)
    → p ≡ p'
    → n ≡ n'
    → Path (Result Panic Sum) (ok (state p n false [])) (ok (state p' n' false []))
same_state p p' n n' e f = λ i. ok (state (e i) (f i) false [])

-- The loop with the term `t` read, but not yet added.
loop-terms :
    (ts : List Term) (p n : ℕ) (t : Term)
    → p + n + added (t ∷ ts) + subtracted (t ∷ ts) < 2 ^ 63
    → eval_loop (print ts ++ (b'+' ∷ [])) (state p n t.minus (32 ∷ (word t ++ (32 ∷ []))))
      ≡ ok (state (p + added (t ∷ ts)) (n + subtracted (t ∷ ts)) false [])
unfolding eval_loop
loop-terms [] p n t h =
    eval_sign b'+' [] _ _ (inl refl) (end_term-word b'+' p n t (amount_bound t p n 0 0 h))
    ∙ same_state _ _ _ _ (omega arith) (omega arith)
loop-terms (s ∷ ts) p n t h =
    eval_sign (sign_of s.minus) (32 ∷ ((word s ++ (32 ∷ print ts)) ++ (b'+' ∷ []))) _ _
      (sign-cases s.minus) (end_term-word (sign_of s.minus) p n t (amount_bound t p n _ _ h))
    ∙ ap (λ m. eval_loop (32 ∷ ((word s ++ (32 ∷ print ts)) ++ (b'+' ∷ []))) (state p' n' m []))
        (sign-minus s.minus)
    ∙ ap (λ z. eval_loop (32 ∷ z) (state p' n' s.minus []))
        (append_assoc (word s) (32 ∷ print ts) (b'+' ∷ []))
    ∙ eval_word p' n' s.minus s (print ts ++ (b'+' ∷ []))
    ∙ loop-terms ts p' n' s (omega arith)
    ∙ same_state _ _ _ _ (omega arith) (omega arith)
  where
    p' : ℕ
    p' = p + (if t.minus then 0 else amount t)

    n' : ℕ
    n' = n + (if t.minus then amount t else 0)

-- A sign at the start has no term before it.
end_term-nothing : (c : ℕ) → end_term c (state 0 0 false []) ≡ ok (state 0 0 (c == b'-') [])
unfolding end_term trim trim_start trim_end is_empty
end_term-nothing c = refl

eval_loop-print :
    (ts : List Term)
    → added ts + subtracted ts < 2 ^ 63
    → eval_loop (print ts ++ (b'+' ∷ [])) empty ≡ ok (state (added ts) (subtracted ts) false [])
unfolding eval_loop
eval_loop-print [] h = eval_sign b'+' [] (state 0 0 false []) _ (inl refl) (end_term-nothing b'+')
eval_loop-print (t ∷ ts) h =
    eval_sign (sign_of t.minus) (32 ∷ ((word t ++ (32 ∷ print ts)) ++ (b'+' ∷ [])))
      (state 0 0 false []) _ (sign-cases t.minus) (end_term-nothing (sign_of t.minus))
    ∙ ap (λ m. eval_loop (32 ∷ ((word t ++ (32 ∷ print ts)) ++ (b'+' ∷ []))) (state 0 0 m []))
        (sign-minus t.minus)
    ∙ ap (λ z. eval_loop (32 ∷ z) (state 0 0 t.minus []))
        (append_assoc (word t) (32 ∷ print ts) (b'+' ∷ []))
    ∙ eval_word 0 0 t.minus t (print ts ++ (b'+' ∷ []))
    ∙ loop-terms ts 0 0 t (omega arith)
    ∙ same_state _ _ _ _ (omega arith) (omega arith)

-- An expression of signed numbers, each with a scale, has as its value the sum of the numbers that are
-- added less those that are subtracted, as a u32; the numbers all in all stay below 2^63.
pub eval_expr-print :
    (ts : List Term)
    → added ts + subtracted ts < 2 ^ 63
    → eval_expr (print ts) ≡ ok (as_u32 (diff (added ts) (subtracted ts)))
unfolding eval_expr
eval_expr-print ts h = rw (eval_expr, eval_loop-print ts h) refl
