-- ===== src/Retry/Loop.antt =====
-- utils/retry.util.ts, `retryWithBackoff`, and `retryExternalApiRequest`. How each attempt ends, and the random
-- number drawn after it, are functions of its number.
use astroid_api.Common.{
  ℕ, zero, suc, min, Bool, true, not, Option, none, some, List, [], ◌∷◌, ◌==◌, if◌then◌else◌,
  or_else,
}
use astroid_api.Common.Results.{Result, ok, err}
use astroid_api.Retry.Backoff.{Fraction, default_jitter_factor, exponential_backoff_with_jitter}

pub record Options (E : Type 0) : Type 0 where
  pub max_attempts : Option ℕ
  pub base_delay_ms : Option ℕ
  pub max_delay_ms : Option ℕ
  pub is_retryable : Option (E → Bool)

-- How a call ends: its value or what it throws, which is `undefined` if nothing was attempted; how often
-- it has tried; and the delays in between.
pub record Run (E A : Type 0) : Type 0 where
  pub outcome : Result (Option E) A
  pub attempts : ℕ
  pub delays : List ℕ

abbrev pub may_retry : {E : Type 0} → Option (E → Bool) → E → Bool
may_retry none e = true
may_retry (some p) e = p e

abbrev pub delay_after : {E : Type 0} → Options E → (ℕ → Fraction) → ℕ → ℕ
delay_after options random attempt =
    min
      (exponential_backoff_with_jitter (random attempt) attempt (or_else options.base_delay_ms 500)
        default_jitter_factor none)
      (or_else options.max_delay_ms 30000)

module _ {E A : Type 0} where
  abbrev pub delayed : ℕ → Run E A → Run E A
  delayed delay run = record run { delays = delay ∷ run.delays }

  abbrev pub stop : ℕ → Result (Option E) A → Run E A
  stop attempts outcome = record { outcome = outcome; attempts = attempts; delays = [] }

  -- The loop from an attempt on, with the number of attempts left after it.
  abbrev pub after_failure : Options E → ℕ → ℕ → E → Run E A → Run E A
  after_failure options left attempt e rest =
      if not (may_retry options.is_retryable e)
      then stop attempt (err (some e))
      else if left == 0
      then stop attempt (err (some e))
      else rest

  abbrev pub try_attempt : Options E → ℕ → ℕ → Result E A → Run E A → Run E A
  try_attempt options left attempt (ok a) rest = stop attempt (ok a)
  try_attempt options left attempt (err e) rest = after_failure options left attempt e rest

  unfoldable pub loop : Options E → (ℕ → Result E A) → (ℕ → Fraction) → (left attempt : ℕ) → Run E A
  loop options fn random zero attempt =
      try_attempt options zero attempt (fn attempt) (stop attempt (err none))
  loop options fn random (suc left) attempt =
      let rest = loop options fn random left (suc attempt) in
      try_attempt options (suc left) attempt (fn attempt)
        (delayed (delay_after options random attempt) rest)

  abbrev start : Options E → (ℕ → Result E A) → (ℕ → Fraction) → ℕ → Run E A
  start options fn random zero = stop 0 (err none)
  start options fn random (suc left) = loop options fn random left 1

  unfoldable pub retry_with_backoff : Options E → (ℕ → Result E A) → (ℕ → Fraction) → Run E A
  unfolding loop
  retry_with_backoff options fn random = start options fn random (or_else options.max_attempts 3)

  -- `retryExternalApiRequest`: no delay, and every failure is tried again.
  abbrev pub external_attempt : ℕ → Result E A → Result (Option E) A → Result (Option E) A
  external_attempt left (ok a) rest = ok a
  external_attempt left (err e) rest = if left == 0 then err (some e) else rest

  abbrev pub external_loop : (ℕ → Result E A) → (left attempt : ℕ) → Result (Option E) A
  external_loop fn zero attempt = external_attempt zero (fn attempt) (err none)
  external_loop fn (suc left) attempt =
      let rest = external_loop fn left (suc attempt) in
      external_attempt (suc left) (fn attempt) rest

  abbrev external_start : (ℕ → Result E A) → ℕ → Result (Option E) A
  external_start fn zero = err none
  external_start fn (suc left) = external_loop fn left 1

  unfoldable pub retry_external_api_request : (ℕ → Result E A) → Option ℕ → Result (Option E) A
  retry_external_api_request fn max_attempts = external_start fn (or_else max_attempts 3)
