-- ===== src/WebhookCircuit/Decisions.antt =====
-- What each operation does when no other worker interferes.
use astroid_api.Common.{
  ℕ, ◌+◌, ◌≡◌, ◌≢◌, Bool, true, false, ◌&&◌, ◌||◌, none, some, [], ◌∷◌, arith, ltb, leb,
  if◌then◌else◌,
}
use astroid_api.WebhookCircuit.{
  closed, opened, half_open, Row, WebhookConfig, CircuitFailure, circuit_opened, circuit_closed,
  Environment, same_status, allow, refuse, before_attempt, increment_failures, new_row,
  record_failure, record_success,
}
use astroid_api.WebhookCircuit.Consistency.{IsCoherent}

abbrev pub quiet : Environment
quiet k w = w

-- For an enabled circuit that is not closed, an attempt waits until the recorded end of the cooldown
-- or lease, changing nothing; from then on it is the probe, and holds a new lease of one cooldown.
pub before_attempt_waits :
    (c : WebhookConfig) (now ends : ℕ) (r : Row)
    → c.circuit_enabled ≡ true
    → IsCoherent r
    → r.status ≢ closed
    → r.cooldown_ends_at ≡ some ends
    → before_attempt quiet c now (some r) ≡ (
        if ltb now ends then (refuse r.status r.consecutive_failures ends, some r) else (
          allow half_open r.consecutive_failures,
          some (record r {
            status = half_open;
            opened_at = none;
            cooldown_ends_at = some (now + c.circuit_cooldown_ms);
          }),
        ))
unfolding before_attempt
before_attempt_waits c now ends r on h live at = ground arith

-- The circuit opens on this failure: it was probing, or closed and the failure reaches the threshold.
abbrev pub is_due : WebhookConfig → Row → Bool
is_due c r =
    same_status r.status half_open
    || (same_status r.status closed && leb c.circuit_failure_threshold (r.consecutive_failures + 1))

-- For an enabled circuit with a row, a failure is always counted; it opens the circuit, from now
-- for one cooldown and with one event, exactly if the circuit was half-open, or was closed and the
-- count reaches the threshold; an open circuit keeps its cooldown.
pub record_failure_counts :
    (c : WebhookConfig) (now : ℕ) (f : CircuitFailure) (r : Row)
    → c.circuit_enabled ≡ true
    → record_failure quiet c now f (some r) ≡ (
        if is_due c r
        then (
          some (record {
            status = opened;
            consecutive_failures = r.consecutive_failures + 1;
            opened = true;
          }),
          some (record (increment_failures f now r) {
            status = opened;
            opened_at = some now;
            cooldown_ends_at = some (now + c.circuit_cooldown_ms);
          }),
          circuit_opened
                (r.consecutive_failures + 1)
                c.circuit_failure_threshold
                (now + c.circuit_cooldown_ms)
                f.code
              ∷ [],
        )
        else (
          some (record {
            status = r.status;
            consecutive_failures = r.consecutive_failures + 1;
            opened = false;
          }),
          some (increment_failures f now r),
          [],
        ))
unfolding record_failure
record_failure_counts c now f r on = ground arith

-- A failure of an endpoint without a row is counted as on a new row.
pub record_failure_first :
    (c : WebhookConfig) (now : ℕ) (f : CircuitFailure)
    → c.circuit_enabled ≡ true
    → record_failure quiet c now f none ≡ record_failure quiet c now f (some new_row)
unfolding record_failure
record_failure_first c now f on = ground arith

-- For an enabled circuit with a row, after a success the next attempt is allowed at any time, with
-- no failures counted, and the recovery is reported exactly if the circuit was not closed.
pub success_recovers :
    (c : WebhookConfig) (now later : ℕ) (r : Row)
    → c.circuit_enabled ≡ true
    → ((before_attempt quiet c later (record_success quiet c now (some r)).0).0 ≡ allow closed 0)
      × ((record_success quiet c now (some r)).1
          ≡ (if same_status r.status closed then [] else circuit_closed (some r.status) ∷ []))
unfolding before_attempt record_success
success_recovers c now later r on = ground arith
