-- ===== src/Retry/Backoff.antt =====
-- utils/backoff.util.ts. `Math.random()` is a fraction below one, the jitter factor a fraction; products of
-- doubles are exact here.
use astroid_api.Common.{ℕ, zero, suc, ◌+◌, ◌*◌, ◌/◌, ◌^◌, min, max, Option, none, some}

pub record Fraction : Type 0 where
  pub numerator : ℕ
  pub denominator : ℕ

abbrev pub default_jitter_factor : Fraction
default_jitter_factor = record { numerator = 1; denominator = 5 }

abbrev pub default_base_delay_ms : ℕ
default_base_delay_ms = 2000

-- `Math.min(delay, maxDelayMs)`, if there is a maximum
abbrev pub capped : Option ℕ → ℕ → ℕ
capped none delay = delay
capped (some most) delay = min delay most

-- `Math.floor(baseDelay * Math.pow(2, attempt - 1))`
abbrev pub exponential_delay : ℕ → ℕ → ℕ
exponential_delay zero base = base / 2
exponential_delay (suc n) base = base * 2 ^ n

unfoldable pub exponential_backoff_delay : ℕ → ℕ → Option ℕ → ℕ
exponential_backoff_delay attempt base most = capped most (exponential_delay attempt base)

-- `Math.floor(Math.random() * baseDelay * jitterFactor * attempt)`; the exponential part is whole unless
-- the attempt is 0, for which no caller asks.
abbrev pub jitter : Fraction → ℕ → Fraction → ℕ → ℕ
jitter random base factor attempt =
    (random.numerator * (base * factor.numerator * attempt))
    / (random.denominator * factor.denominator)

unfoldable pub exponential_backoff_with_jitter : Fraction → ℕ → ℕ → Fraction → Option ℕ → ℕ
exponential_backoff_with_jitter random attempt base factor most =
    capped most (exponential_delay attempt base + jitter random base factor attempt)

unfoldable pub jittered_backoff_delay : Fraction → ℕ → ℕ → Option ℕ → ℕ
unfolding exponential_backoff_with_jitter
jittered_backoff_delay random attempts_made base most =
    exponential_backoff_with_jitter random attempts_made base default_jitter_factor most

-- The strategy of `jitteredBackoffStrategy`; `createWebhookBackoffStrategy` has no maximum, and
-- `webhookBackoffStrategy` the default base.
unfoldable pub jittered_backoff_strategy : Fraction → ℕ → Option ℕ → ℕ → ℕ
unfolding exponential_backoff_with_jitter
jittered_backoff_strategy random base most attempts_made =
    exponential_backoff_with_jitter random (max attempts_made 1) base default_jitter_factor most

abbrev pub create_webhook_backoff_strategy : Fraction → ℕ → ℕ → ℕ
create_webhook_backoff_strategy random base attempts_made =
    exponential_backoff_with_jitter random (max attempts_made 1) base default_jitter_factor none

abbrev pub webhook_backoff_strategy : Fraction → ℕ → ℕ
webhook_backoff_strategy random attempts_made =
    create_webhook_backoff_strategy random default_base_delay_ms attempts_made
