-- ===== src/Sensor/Retry.antt =====
-- What the retry loop of core/src/sensor.rs guarantees.
use garagelight.Prelude.{
  ◌∙◌, inl, inr, Option-cases, ap, ℕ, zero, suc, ◌+◌, ◌≤◌, ◌<◌, ◌≡◌, ◌↔◌, refl, Option, none, some,
  true, pos, negsuc, ◌≤ℤ◌, arith,
}
use garagelight.Sensor.{Sample, Attempt, in_range, accepted, retry, read_with_retries}

-- The filter keeps exactly the samples from -20 to 60 degrees with a humidity of at most 100 %.
pub in_range_iff :
    (s : Sample)
    → (in_range s ≡ true)
      ↔ ((negsuc 19 ≤ℤ s.temperature) × (s.temperature ≤ℤ pos 60) × (s.relative_humidity ≤ 100))
unfolding in_range
in_range_iff s = (λ e. ground arith, λ e. ground arith)

module _ {S : Type 0} (read : S → Attempt × S) where
  -- The state of the closure after `n` calls.
  abbrev pub after : ℕ → S → S
  after zero s = s
  after (suc n) s = after n (read s).1

  -- What call number `n` returns, counted from 0.
  abbrev pub outcome : ℕ → S → Attempt
  outcome n s = (read (after n s)).0

  -- With `fuel` calls left at most, the loop made `k` calls from `s`, each before the last was of
  -- no use, and it returned `result`.
  pub record Returned (fuel : ℕ) (s : S) (result : Option Sample) (s' : S) (k : ℕ) : Type 0 where
    pub calls_least : 1 ≤ k
    pub calls_most : k ≤ fuel
    pub state_after : s' ≡ after k s
    pub useless : (i : ℕ) → i + 1 < k → accepted (outcome i s) ≡ none
    pub decisive : (i : ℕ) → i + 1 ≡ k → accepted (outcome i s) ≡ result
    pub gave_up : result ≡ none → k ≡ fuel

  Returned-one :
      (fuel : ℕ) (s : S) (r : Option Sample)
      → 1 ≤ fuel
      → accepted (read s).0 ≡ r
      → (r ≡ none → 1 ≡ fuel)
      → Returned fuel s r (read s).1 1
  Returned-one fuel s r h e g = record {
    calls_least = omega arith;
    calls_most = h;
    state_after = refl;
    useless = λ i lt. absurd (omega arith);
    decisive = only;
    gave_up = g;
  }
    where
      only : (i : ℕ) → i + 1 ≡ 1 → accepted (outcome i s) ≡ r
      only zero _ = e
      only (suc i) h' = absurd (omega arith)

  Returned-suc :
      (fuel : ℕ) (s : S) (r : Option Sample) (s' : S) (k : ℕ)
      → accepted (read s).0 ≡ none
      → Returned fuel (read s).1 r s' k
      → Returned (suc fuel) s r s' (suc k)
  Returned-suc fuel s r s' k e v = record {
    calls_least = omega arith;
    calls_most = omega arith;
    state_after = v.state_after;
    useless = before;
    decisive = last;
    gave_up = λ n. ap suc (v.gave_up n);
  }
    where
      before : (i : ℕ) → i + 1 < suc k → accepted (outcome i s) ≡ none
      before zero _ = e
      before (suc i) h = v.useless i (omega arith)

      last : (i : ℕ) → i + 1 ≡ suc k → accepted (outcome i s) ≡ r
      last zero h = absurd (omega arith)
      last (suc i) h = v.decisive i (omega arith)

  abbrev pub Returns : ℕ → S → Option (Option Sample × S) → Type 0
  Returns fuel s out =
      (result : Option Sample) × (s' : S) × (k : ℕ) × (out ≡ some (result, s'))
      × Returned fuel s result s' k

  retry_hit :
      (fuel attempt : ℕ) (s : S) (x : Sample)
      → accepted (read s).0 ≡ some x
      → retry read (suc fuel) attempt s ≡ some (some x, (read s).1)
  unfolding retry
  retry_hit fuel attempt s x e = ground arith

  retry_last :
      (fuel attempt : ℕ) (s : S)
      → accepted (read s).0 ≡ none
      → 3 ≤ attempt + 1
      → retry read (suc fuel) attempt s ≡ some (none, (read s).1)
  unfolding retry
  retry_last fuel attempt s e h = ground arith

  retry_again :
      (fuel attempt : ℕ) (s : S)
      → accepted (read s).0 ≡ none
      → attempt + 1 < 3
      → retry read (suc fuel) attempt s ≡ retry read fuel (attempt + 1) (read s).1
  unfolding retry
  retry_again fuel attempt s e h = ground arith

  retry-Returns :
      (fuel attempt : ℕ) (s : S)
      → suc fuel + attempt ≡ 3
      → Returns (suc fuel) s (retry read (suc fuel) attempt s)
  retry-Returns zero attempt s h = elim (Option-cases (accepted (read s).0)) [
    | inr (x, e) ↦ (
      some x,
      (read s).1,
      1,
      retry_hit 0 attempt s x e,
      Returned-one 1 s (some x) (omega arith) e (λ n. cc),
    )
    | inl e ↦ (
      none,
      (read s).1,
      1,
      retry_last 0 attempt s e (omega arith),
      Returned-one 1 s none (omega arith) e (λ n. refl),
    )
  ]
  retry-Returns (suc fuel) attempt s h =
      go (retry-Returns fuel (attempt + 1) (read s).1 (omega arith))
    where
      go :
          Returns (suc fuel) (read s).1 (retry read (suc fuel) (attempt + 1) (read s).1)
          → Returns (suc (suc fuel)) s (retry read (suc (suc fuel)) attempt s)
      go (r, s', k, again, v) = elim (Option-cases (accepted (read s).0)) [
        | inr (x, e) ↦ (
          some x,
          (read s).1,
          1,
          retry_hit (suc fuel) attempt s x e,
          Returned-one (suc (suc fuel)) s (some x) (omega arith) e (λ n. cc),
        )
        | inl e ↦ (
          r,
          s',
          suc k,
          retry_again (suc fuel) attempt s e (omega arith) ∙ again,
          Returned-suc (suc fuel) s r s' k e v,
        )
      ]

  pub read_with_retries_lem : (s : S) → Returns 3 s (read_with_retries read s)
  unfolding read_with_retries
  read_with_retries_lem s = retry-Returns 2 0 s (omega arith)
