-- ===== src/Ota/Base64/Encode.antt =====
-- What `base64` of core/src/ota/mod.rs writes, and when it refuses.
use native.Mathlib.Nat.{add-zero, zero-add}
use garagelight.Prelude.{
  ap_at, ℕ, suc, ◌+◌, ◌*◌, ◌/◌, ◌≤◌, ◌<◌, ◌≡◌, ◌⊎◌, inl, inr, refl, ◌∙◌, sym, ap, true, false, [],
  ◌∷◌, ◌++◌, none, some, arith, Bytes, IsByte, All, Bool-cases, ltb, lt→ltb, if◌then◌else◌, length,
  take, drop, length-append, take-append, drop-append, append_assoc, length-drop, length-take,
  take-append-drop,
}
use garagelight.Ota.Base64.{write_at, group, base64_fill, base64}
use garagelight.Ota.Base64.Groups.{four_of, encode, group_three, group_two, group_one}

-- A write at the end of `done` replaces what stands there.
drop_past : (done xs : Bytes) (k : ℕ) → drop (length done + k) (done ++ xs) ≡ drop k xs
drop_past [] xs k = ap_at (λ n. drop n xs) (0 + k) k (omega arith)
drop_past (d ∷ done) xs k =
    ap_at (λ n. drop n (d ∷ (done ++ xs))) (suc (length done) + k) (suc (length done + k))
      (omega arith)
    ∙ drop_past done xs k

write_at-append :
    (done bytes room tail : Bytes)
    → length room ≡ length bytes
    → write_at (length done) bytes (done ++ (room ++ tail)) ≡ (done ++ bytes) ++ tail
write_at-append done bytes room tail h = rw (
  take-append done (room ++ tail),
  drop_past done (room ++ tail) (length bytes),
  ← h,
  drop-append room tail,
  append_assoc,
)

length-write_at :
    (o : ℕ) (bytes out : Bytes)
    → o + length bytes ≤ length out
    → length (write_at o bytes out) ≡ length out
length-write_at o bytes out h = omega (
  arith,
  length-append (take o out) (bytes ++ drop (o + length bytes) out),
  length-append bytes (drop (o + length bytes) out),
  length-take o out,
  length-drop (o + length bytes) out,
)

not_short :
    (done room tail : Bytes) (k : ℕ)
    → k ≤ length room
    → ltb (length (done ++ (room ++ tail))) (length done + k) ≡ false
not_short done room tail k h =
    ground (arith, length-append done (room ++ tail), length-append room tail)

-- The rounds of the loop, with the groups left shut.
fill_one :
    (a o : ℕ) (out : Bytes)
    → base64_fill (a ∷ []) o out ≡ (
        if ltb (length out) (o + 4) then none else some (o + 4, write_at o (group a none none) out))
unfolding base64_fill
fill_one a o out = refl

fill_two :
    (a b o : ℕ) (out : Bytes)
    → base64_fill (a ∷ b ∷ []) o out ≡ (
        if ltb (length out) (o + 4)
        then none
        else some (o + 4, write_at o (group a (some b) none) out))
unfolding base64_fill
fill_two a b o out = refl

fill_three :
    (a b c : ℕ) (rest : Bytes) (o : ℕ) (out : Bytes)
    → base64_fill (a ∷ b ∷ c ∷ rest) o out ≡ (
        if ltb (length out) (o + 4)
        then none
        else base64_fill rest (o + 4) (write_at o (group a (some b) (some c)) out))
unfolding base64_fill
fill_three a b c rest o out = refl

-- With room for the code, the buffer gets it behind what is done, and the rest stays.
fill_ok :
    (input done room tail : Bytes)
    → All IsByte input
    → length room ≡ length (encode input)
    → base64_fill input (length done) (done ++ (room ++ tail))
      ≡ some (length done + length (encode input), done ++ (encode input ++ tail))
fill_ok [] done [] tail h l = unfold base64_fill in cc (add-zero (length done))
fill_ok [] done (r ∷ room) tail h l = absurd (omega arith)
fill_ok (a ∷ []) done room tail h l = rw (
  fill_one,
  not_short done room tail 4 (omega arith),
  group_one a h.0,
  write_at-append done (encode (a ∷ [])) room tail l,
  append_assoc,
)
fill_ok (a ∷ b ∷ []) done room tail h l = rw (
  fill_two,
  not_short done room tail 4 (omega arith),
  group_two a b h.0 h.1.0,
  write_at-append done (encode (a ∷ b ∷ [])) room tail l,
  append_assoc,
)
fill_ok (a ∷ b ∷ c ∷ rest) done (r0 ∷ r1 ∷ r2 ∷ r3 ∷ room) tail h l =
    rw
      (
        fill_three,
        not_short done (r0 ∷ r1 ∷ r2 ∷ r3 ∷ room) tail 4 (omega arith),
        group_three a b c h.0 h.1.0 h.1.1.0,
        write_at-append done (four_of a b c) (r0 ∷ r1 ∷ r2 ∷ r3 ∷ []) (room ++ tail) refl,
      )
      (ap_at (λ o. base64_fill rest o ((done ++ four_of a b c) ++ (room ++ tail))) (length done + 4)
          (length (done ++ four_of a b c)) (omega (arith, length-append done (four_of a b c)))
        ∙ fill_ok rest (done ++ four_of a b c) room tail h.1.1.1 (omega arith)
        ∙ cc (sum, append_assoc done (four_of a b c) (encode rest ++ tail)))
  where
    sum :
        length (done ++ four_of a b c) + length (encode rest)
        ≡ length done + length (encode (a ∷ b ∷ c ∷ rest))
    sum = omega (arith, length-append done (four_of a b c))
fill_ok (a ∷ b ∷ c ∷ rest) done _ tail h l = absurd (omega arith)

-- Without the room for the code nothing is returned.
fill_short :
    (input : Bytes) (o : ℕ) (out : Bytes)
    → All IsByte input
    → o ≤ length out
    → length out < o + length (encode input)
    → base64_fill input o out ≡ none
fill_short [] o out h le l = absurd (omega arith)
fill_short (a ∷ []) o out h le l = rw (fill_one, lt→ltb (length out) (o + 4) l)
fill_short (a ∷ b ∷ []) o out h le l = rw (fill_two, lt→ltb (length out) (o + 4) l)
fill_short (a ∷ b ∷ c ∷ rest) o out h le l = elim (Bool-cases (ltb (length out) (o + 4))) [
  | inl short ↦ rw (fill_three, short)
  | inr fits ↦
      let enough : o + 4 ≤ length out = ground arith in
      let out' = write_at o (group a (some b) (some c)) out in
      let same : length out' ≡ length out =
        rw (group_three a b c h.0 h.1.0 h.1.1.0)
          (length-write_at o (four_of a b c) out (ground arith)) in
      rw (fill_three, fits)
        (fill_short rest (o + 4) out' h.1.1.1 (omega (arith, same, enough)) (omega (arith, same)))
]

-- The length of the code: four characters for each three bytes begun.
pub length-encode : (input : Bytes) → length (encode input) ≡ (length input + 2) / 3 * 4
length-encode [] = omega arith
length-encode (a ∷ []) = omega arith
length-encode (a ∷ b ∷ []) = omega arith
length-encode (a ∷ b ∷ c ∷ rest) = omega (arith, length-encode rest)

length-encode-take : (n : ℕ) (out : Bytes) → ltb (length out) n ≡ false → length (take n out) ≡ n
length-encode-take n out h = ground (arith, length-take n out)

-- Base64 fails exactly when the buffer has fewer than four characters for each three bytes begun;
-- otherwise it writes the code to the front of the buffer, and leaves the rest as it was.
pub base64-encode :
    (input out : Bytes)
    → All IsByte input
    → base64 input out ≡ (
        let size = (length input + 2) / 3 * 4 in
        if ltb (length out) size then none else some (size, encode input ++ drop size out))
unfolding base64
base64-encode input out h =
    rw (← length-encode input) (go (Bool-cases (ltb (length out) (length (encode input)))))
  where
    size : ℕ
    size = length (encode input)

    go :
        (ltb (length out) size ≡ true) ⊎ (ltb (length out) size ≡ false)
        → base64_fill input 0 out
          ≡ (if ltb (length out) size then none else some (size, encode input ++ drop size out))
    go (inl short) = rw short (fill_short input 0 out h (omega arith) (ground arith))
    go (inr fits) = rw fits (
        ap (base64_fill input 0) (sym (take-append-drop size out))
        ∙ fill_ok input [] (take size out) (drop size out) h (length-encode-take size out fits)
        ∙ cc (zero-add size))
