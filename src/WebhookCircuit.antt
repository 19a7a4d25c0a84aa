-- ===== src/WebhookCircuit.antt =====
-- modules/webhooks/services/webhook-circuit.service.ts: the circuit of one webhook endpoint, kept in
-- its database row. Every database call is atomic; between two calls of a method other workers may
-- change the row, since the endpoint lock is best-effort: `env k` is what they did before the
-- method's k-th call. The row's keys and its creation and update times are left out, and so is the
-- URL in the emitted events.
pub mod Queries
pub mod Consistency
pub mod Decisions
pub mod Probes
pub mod Failures
mod Tests
unfoldable pub use Queries.*
use astroid_api.Common.{
  ℕ, zero, suc, ◌+◌, ◌*◌, String, Bool, true, false, ◌||◌, Option, none, some, List, [], ◌∷◌, ltb,
  leb, ◌==◌, if◌then◌else◌, or_else,
}

pub record CircuitDecision : Type 0 where
  pub allowed : Bool
  pub status : CircuitStatus
  pub consecutive_failures : ℕ
  pub retry_at : Option ℕ

pub record FailureOutcome : Type 0 where
  pub status : CircuitStatus
  pub consecutive_failures : ℕ
  pub opened : Bool

pub data Emitted : Type 0 where
  circuit_opened :
      (consecutive_failures threshold cooldown_ends_at : ℕ) (failure_code : String) → Emitted
  circuit_closed : (previous_status : Option CircuitStatus) → Emitted

abbrev pub Environment : Type 0
Environment = ℕ → World → World

-- The decision when a conditional update matched nothing and the row was read again.
unfoldable pub lost_race : CircuitStatus → ℕ → ℕ → World → CircuitDecision
lost_race status failures ends none = record {
  allowed = false;
  status = status;
  consecutive_failures = failures;
  retry_at = some ends;
}
lost_race status failures ends (some r) = record {
  allowed = false;
  status = r.status;
  consecutive_failures = r.consecutive_failures;
  retry_at = some (or_else r.cooldown_ends_at ends);
}

abbrev pub allow : CircuitStatus → ℕ → CircuitDecision
allow status failures = record {
  allowed = true;
  status = status;
  consecutive_failures = failures;
  retry_at = none;
}

abbrev pub refuse : CircuitStatus → ℕ → ℕ → CircuitDecision
refuse status failures ends = record {
  allowed = false;
  status = status;
  consecutive_failures = failures;
  retry_at = some ends;
}

-- The end of both branches: probe if the update matched, else read the row again and wait.
unfoldable pub conclude :
    Environment → CircuitStatus → Row → ℕ → World × ℕ → CircuitDecision × World
unfolding lost_race
conclude env status r ends (w, zero) =
    let w' = env 2 w in (lost_race status r.consecutive_failures ends w', w')
conclude env status r ends (w, suc n) = (allow half_open r.consecutive_failures, w)

-- What follows the load, by the status that was read.
unfoldable pub decide :
    CircuitStatus → Environment → WebhookConfig → ℕ → Row → World → CircuitDecision × World
unfolding conclude half_open_if_open renew_lease
decide opened env c now r w =
    let ends = or_else r.cooldown_ends_at now in
    if ltb now ends
    then (refuse opened r.consecutive_failures ends, w)
    else conclude env opened r ends (half_open_if_open c now ends (env 1 w))
decide half_open env c now r w =
    let ends = or_else r.cooldown_ends_at (now + c.circuit_cooldown_ms) in
    if ltb now ends
    then (refuse half_open r.consecutive_failures ends, w)
    else conclude env half_open r ends (renew_lease c now (env 1 w))
decide closed env c now r w = (allow closed r.consecutive_failures, w)

unfoldable pub decide_loaded : Environment → WebhookConfig → ℕ → World → CircuitDecision × World
unfolding decide
decide_loaded env c now none = (allow closed 0, none)
decide_loaded env c now (some r) = decide r.status env c now r (some r)

unfoldable pub before_attempt : Environment → WebhookConfig → ℕ → World → CircuitDecision × World
unfolding decide_loaded
before_attempt env c now w =
    if c.circuit_enabled then decide_loaded env c now (env 0 w) else (allow closed 0, w)

-- The end of `recordFailure`, from the row that the increment returned.
unfoldable pub open_if_due :
    Environment
    → WebhookConfig
    → ℕ
    → String
    → Bool
    → Row
    → World
    → Option FailureOutcome × World × List Emitted
unfolding transition_to_open
open_if_due env c now code probe updated w =
    let still : FailureOutcome = record {
      status = updated.status;
      consecutive_failures = updated.consecutive_failures;
      opened = false;
    } in
    let ends = now + c.circuit_cooldown_ms in
    let (w', count) = transition_to_open now ends (env 3 w) in
    if probe || leb c.circuit_failure_threshold updated.consecutive_failures
    then (if 0 == count then (some still, w', []) else (
      some (record {
        status = opened;
        consecutive_failures = updated.consecutive_failures;
        opened = true;
      }),
      w',
      circuit_opened updated.consecutive_failures c.circuit_failure_threshold ends code ∷ [],
    ))
    else (some still, w, [])

-- `update` of a row that is gone throws: the outcome is `none`.
unfoldable pub count_and_open :
    Environment
    → WebhookConfig
    → ℕ
    → CircuitFailure
    → Bool
    → World
    → Option FailureOutcome × World × List Emitted
unfolding open_if_due
count_and_open env c now f probe none = (none, none, [])
count_and_open env c now f probe (some r) =
    open_if_due env c now f.code probe (increment_failures f now r)
      (some (increment_failures f now r))

unfoldable pub record_failure :
    Environment
    → WebhookConfig
    → ℕ
    → CircuitFailure
    → World
    → Option FailureOutcome × World × List Emitted
unfolding count_and_open create_if_missing was_half_open
record_failure env c now f w =
    if c.circuit_enabled
    then (let previous = env 0 w in
        count_and_open env c now f (was_half_open previous)
          (env 2 (create_if_missing (env 1 previous))))
    else (some (record { status = closed; consecutive_failures = 0; opened = false }), w, [])

unfoldable pub record_success : Environment → WebhookConfig → ℕ → World → World × List Emitted
unfolding reset_closed close_open status_of
record_success env c now w =
    if c.circuit_enabled
    then (let previous = env 1 (reset_closed now (env 0 w)).0 in
        let (w', count) = close_open now (env 2 previous) in
        (w', if ltb 0 count then circuit_closed (status_of previous) ∷ [] else []))
    else (w, [])
