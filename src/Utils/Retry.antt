-- ===== src/Utils/Retry.antt =====
-- utils/utils.go: `RetryFunc`. The function that is retried is given by the results of its calls;
-- `none` is no error. The sleep between two calls is left out.
use gopher_cron.Base.{
  ℕ, zero, suc, ◌+◌, ◌≤◌, ◌<◌, Option, none, some, ◌≡◌, ◌≢◌, ap, subst, Bool-cases, ◌==◌, arith,
  Option-cases, ◌⊎◌, inl, inr,
}

module _ {E : Type 0} (f : ℕ → Option E) where
  -- With `left` retries to come: the number of calls so far, then the result. `reTimes == times`
  -- is `left` at zero.
  unfoldable pub retry_from : (left calls : ℕ) → ℕ × Option E
  retry_from zero calls = (suc calls, f calls)
  retry_from (suc left) calls =
      let again = retry_from left (suc calls) in
      elim (f calls) [ none ↦ (suc calls, none) | some e ↦ again ]

  unfoldable pub retry_func : (times : ℕ) → ℕ × Option E
  unfolding retry_from
  retry_func times = retry_from times 0

  -- A first success at one of the calls from `lo` on.
  abbrev pub FirstSuccess : ℕ → ℕ → Type 0
  FirstSuccess lo n = (f n ≡ none) × ((i : ℕ) → lo ≤ i → i < n → f i ≢ none)

  -- What a run that starts at call `lo` with `left` retries amounts to.
  abbrev pub Outcome : (left lo : ℕ) → ℕ × Option E → Type 0
  Outcome left lo r =
      ((n : ℕ) × (lo ≤ n) × (n ≤ lo + left) × FirstSuccess lo n × (r ≡ (suc n, none)))
      ⊎ ((e : E) × ((i : ℕ) → lo ≤ i → i ≤ lo + left → f i ≢ none)
          × (f (lo + left) ≡ some e)
          × (r ≡ (suc (lo + left), some e)))

  still : (lo i : ℕ) {e : E} → f lo ≡ some e → lo ≤ i → (suc lo ≤ i → f i ≢ none) → f i ≢ none
  still lo i h p next q = elim (Bool-cases (lo == i)) [
    | inl same ↦ let s : lo ≡ i = ground arith in ground arith
    | inr other ↦ next (ground arith) q
  ]

  retry_from-Outcome : (left lo : ℕ) → Outcome left lo (retry_from left lo)
  unfolding retry_from
  retry_from-Outcome zero lo = elim (Option-cases (f lo)) [
    | inl h ↦ inl (lo, omega arith, omega arith, (h, λ i a b. omega arith), ap (λ o. (suc lo, o)) h)
    | inr (e, h) ↦ inr (e, λ i a b. ground arith, ground arith, ground arith)
  ]
  retry_from-Outcome (suc left) lo = elim (Option-cases (f lo)) [
    | inl h ↦ inl (lo, omega arith, omega arith, (h, λ i a b. omega arith), rw (h, retry_from))
    | inr (e, h) ↦ elim (retry_from-Outcome left (suc lo)) [
      | inl (n, a, b, (s, fails), r) ↦ inl (
        n,
        omega arith,
        omega arith,
        (s, λ i p q. still lo i h p (λ c. fails i c q)),
        rw (h, retry_from) r,
      )
      | inr (x, fails, last, r) ↦
          let shift : suc lo + left ≡ lo + suc left = omega arith in
          inr (
            x,
            λ i p q. still lo i h p (λ c. fails i c (omega arith)),
            subst (λ k. f k ≡ some x) shift last,
            rw (h, retry_from) (subst (λ k. retry_from left (suc lo) ≡ (suc k, some x)) shift r),
          )
    ]
  ]

  -- The function is called until its first success, at most `times + 1` times: then there is no
  -- error. If those calls all fail, the error of the last of them is returned.
  pub retry_func-Outcome : (times : ℕ) → Outcome times 0 (retry_func times)
  unfolding retry_func
  retry_func-Outcome times = retry_from-Outcome times 0
