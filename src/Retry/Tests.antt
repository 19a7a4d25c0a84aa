-- ===== src/Retry/Tests.antt =====
-- Retries of a call that fails twice.
use astroid_api.Common.{
  ℕ, ◌≤◌, String, ◌≡◌, refl, ◌↔◌, ◌⊎◌, Bool, true, false, none, some, [], ◌∷◌, ◌==◌, if◌then◌else◌,
}
use astroid_api.Common.Results.{Result, ok, err}
use astroid_api.Retry.Backoff.{Fraction, exponential_backoff_with_jitter}
use astroid_api.Retry.Loop.{Options, retry_with_backoff, loop}
use astroid_api.Retry.Attempts.{IsRun, retry_outcome}
use astroid_api.Retry.Transient.{
  Failure, Signs, uncaused, caused, undefined, missing, signs, resolve_error_status,
  has_transient_code, has_transient_message, is_transient_network_error,
}
use astroid_api.Retry.Causes.{Reports, transient_iff}

abbrev options : Options String
options = record {
  max_attempts = some 4;
  base_delay_ms = some 1000;
  max_delay_ms = some 1500;
  is_retryable = none;
}

abbrev third_time : ℕ → Result String ℕ
third_time n = if n == 3 then ok 7 else err "down"

abbrev half : ℕ → Fraction
half n = record { numerator = 1; denominator = 2 }

reads : Unit {0}
unfolding retry_with_backoff loop exponential_backoff_with_jitter
reads = tt

succeeds : (retry_with_backoff options third_time half).outcome ≡ ok 7
unfolding reads
succeeds = refl

waits : (retry_with_backoff options third_time half).delays ≡ 1100 ∷ 1500 ∷ []
unfolding reads
waits = refl

retry_outcome_example :
    IsRun options third_time half 1 4 (retry_with_backoff options third_time half)
retry_outcome_example = retry_outcome options third_time half 3 refl

abbrev silent : Signs
silent = record {
  status = undefined;
  status_code = undefined;
  response_status = none;
  get_status = missing;
  code = none;
  message = none;
  not_retryable = false;
}

-- A wrapper around a refused connection.
abbrev wrapped : Failure
wrapped = caused silent (uncaused (record silent { code = some "ECONNREFUSED" }))

abbrev never : String → Bool
never s = false

transient_iff_example : (is_transient_network_error never wrapped ≡ true) ↔ (
    ((status : ℕ) × ((resolve_error_status (signs wrapped) ≡ some status)
        × ((500 ≤ status) × (status ≤ 599))))
    ⊎ ((resolve_error_status (signs wrapped) ≡ none)
        × (((signs wrapped).not_retryable ≡ false)
            × (Reports has_transient_code 6 wrapped
                ⊎ Reports (has_transient_message never) 6 wrapped))))
transient_iff_example = transient_iff never wrapped
