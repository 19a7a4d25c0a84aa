-- ===== src/Retry/Attempts.antt =====
-- How often a retried call is attempted, how it ends, and how long it waits.
use astroid_api.Common.{
  ℕ, zero, suc, ◌+◌, ◌≤◌, ◌<◌, ◌≡◌, refl, ◌⊎◌, inl, inr, true, false, Option, some, arith, ◌==◌,
  Bool-cases, or_else, length, All,
}
use astroid_api.Common.Results.{Result-cases, Result, ok, err}
use astroid_api.Retry.Backoff.{Fraction}
use astroid_api.Retry.Loop.{
  Options, Run, may_retry, delay_after, delayed, stop, loop, retry_with_backoff,
}

module _ {E A : Type 0} (options : Options E) (fn : ℕ → Result E A) (random : ℕ → Fraction) where
  -- Attempt `n` is where the call stops, if it starts at attempt `first` and may go on to `last`.
  abbrev pub IsLast : ℕ → ℕ → Result (Option E) A → Type 0
  IsLast last n outcome =
      ((a : A) × ((fn n ≡ ok a) × (outcome ≡ ok a)))
      ⊎ ((e : E) × ((fn n ≡ err e)
            × ((outcome ≡ err (some e))
                × ((may_retry options.is_retryable e ≡ false) ⊎ (n ≡ last)))))

  -- An attempt that fails in a way that may be retried.
  abbrev pub Retried : ℕ → Type 0
  Retried m = (e : E) × ((fn m ≡ err e) × (may_retry options.is_retryable e ≡ true))

  abbrev pub longest : ℕ
  longest = or_else options.max_delay_ms 30000

  pub IsRun : ℕ → ℕ → Run E A → Type 0
  IsRun first last run =
      ((first ≤ run.attempts) × (run.attempts ≤ last))
      × (((m : ℕ) → first ≤ m → m < run.attempts → Retried m)
          × (IsLast last run.attempts run.outcome
              × ((length run.delays + first ≡ run.attempts) × All (λ d. d ≤ longest) run.delays)))

  stop-IsRun :
      (first last : ℕ) (outcome : Result (Option E) A)
      → first ≤ last
      → IsLast last first outcome
      → IsRun first last (stop first outcome)
  unfolding IsRun
  stop-IsRun first last outcome le h =
      ((omega arith, le), (λ m lo hi. absurd (omega (arith, lo, hi)), (h, (omega arith, tt))))

  delayed-IsRun :
      (first last d : ℕ) (run : Run E A)
      → Retried first
      → d ≤ longest
      → IsRun (suc first) last run
      → IsRun first last (delayed d run)
  unfolding IsRun
  delayed-IsRun first last d run now le ((lo, hi), (before, (end, (count, short)))) = (
    (omega (arith, lo), hi),
    (
      λ m from to. elim (Bool-cases (m == first)) [
        | inl e ↦ let same : m ≡ first = ground (arith, e) in rw same now
        | inr e ↦ before m (ground (arith, from, e)) to
      ],
      (end, (omega (arith, count), (le, short))),
    ),
  )

  loop-IsRun : (left first : ℕ) → IsRun first (first + left) (loop options fn random left first)
  unfolding loop
  loop-IsRun zero first = elim (Result-cases (fn first)) [
    | inl (a, q) ↦ rw q (stop-IsRun first (first + 0) (ok a) (omega arith) (inl (a, (q, refl))))
    | inr (e, q) ↦ elim (Bool-cases (may_retry options.is_retryable e)) [
      | inl k ↦
          rw (q, k)
            (stop-IsRun first (first + 0) (err (some e)) (omega arith)
              (inr (e, (q, (refl, inr (omega arith))))))
      | inr k ↦
          rw (q, k)
            (stop-IsRun first (first + 0) (err (some e)) (omega arith)
              (inr (e, (q, (refl, inl k)))))
    ]
  ]
  loop-IsRun (suc left) first = elim (Result-cases (fn first)) [
    | inl (a, q) ↦
        rw q (stop-IsRun first (first + suc left) (ok a) (omega arith) (inl (a, (q, refl))))
    | inr (e, q) ↦ elim (Bool-cases (may_retry options.is_retryable e)) [
      | inl k ↦
          let same : suc first + left ≡ first + suc left = omega arith in
          let rest = loop-IsRun left (suc first) in
          let more : (suc left == 0) ≡ false = ground arith in
          rw (q, k, more)
            (delayed-IsRun first (first + suc left) (delay_after options random first)
              (loop options fn random left (suc first)) (e, (q, k)) (omega arith) (rw same at rest))
      | inr k ↦
          rw (q, k)
            (stop-IsRun first (first + suc left) (err (some e)) (omega arith)
              (inr (e, (q, (refl, inl k)))))
    ]
  ]

  -- With at least one attempt allowed, `retryWithBackoff` ends after some attempt of number at most
  -- `maxAttempts`: every earlier attempt failed in a way that may be retried, and the call returns the
  -- value of the last attempt, or throws its error, which then may not be retried or had no attempt
  -- left. It has waited once between each two attempts, never longer than the maximum delay.
  pub retry_outcome :
      (left : ℕ)
      → or_else options.max_attempts 3 ≡ suc left
      → IsRun 1 (suc left) (retry_with_backoff options fn random)
  unfolding retry_with_backoff
  retry_outcome left e =
      let same : 1 + left ≡ suc left = omega arith in
      let run = loop-IsRun left 1 in rw e (rw same at run)
