-- ===== src/WebhookCircuit/Consistency.antt =====
-- The state of an endpoint's circuit stays coherent, whatever other workers do between the calls of
-- a method, as long as they keep it coherent too.
use astroid_api.Common.{
  ℕ, zero, suc, ◌+◌, ◌≤◌, ◌≡◌, ◌≢◌, Bool, ◌||◌, Option, none, some, List, arith, ltb, leb, if_both,
  or_else,
}
use astroid_api.WebhookCircuit.{
  CircuitDecision, FailureOutcome, Emitted, CircuitStatus, closed, opened, half_open, Row, World,
  WebhookConfig, CircuitFailure, Environment, half_open_if_open, renew_lease, conclude, decide,
  decide_loaded, before_attempt, create_if_missing, increment_failures, transition_to_open,
  was_half_open, open_if_due, count_and_open, record_failure, reset_closed, close_open,
  record_success,
}

-- An open circuit knows when it opened and when its cooldown ends; a half-open one knows when the
-- lease of its probe ends; a closed one has neither; and no more failures are consecutive than
-- were counted in all.
pub record IsCoherent (r : Row) : Type 0 where
  pub open_until : r.status ≡ opened → (r.cooldown_ends_at ≢ none) × (r.opened_at ≢ none)
  pub leased : r.status ≡ half_open → (r.cooldown_ends_at ≢ none) × (r.opened_at ≡ none)
  pub closed_clear : r.status ≡ closed → (r.cooldown_ends_at ≡ none) × (r.opened_at ≡ none)
  pub counted : r.consecutive_failures ≤ r.total_failures

abbrev pub AllCoherent : World → Type 0
AllCoherent none = Unit
AllCoherent (some r) = IsCoherent r

abbrev Decided : CircuitDecision × World → Type 0
Decided p = AllCoherent p.1

abbrev Recorded : Option FailureOutcome × World × List Emitted → Type 0
Recorded p = AllCoherent p.1

abbrev Settled : World × List Emitted → Type 0
Settled p = AllCoherent p.0

abbrev pub Keeps : (World → World) → Type 0
Keeps f = (w : World) → AllCoherent w → AllCoherent (f w)

module _ (c : WebhookConfig) (now : ℕ) where
  half_open_if_open-AllCoherent : (ends : ℕ) → Keeps (λ w. (half_open_if_open c now ends w).0)
  unfolding half_open_if_open
  half_open_if_open-AllCoherent ends none h = h
  half_open_if_open-AllCoherent ends (some r) h = ground arith

  renew_lease-AllCoherent : Keeps (λ w. (renew_lease c now w).0)
  unfolding renew_lease
  renew_lease-AllCoherent none h = h
  renew_lease-AllCoherent (some r) h = ground arith

transition_to_open-AllCoherent : (now ends : ℕ) → Keeps (λ w. (transition_to_open now ends w).0)
unfolding transition_to_open
transition_to_open-AllCoherent now ends none h = h
transition_to_open-AllCoherent now ends (some r) h = ground arith

reset_closed-AllCoherent : (now : ℕ) → Keeps (λ w. (reset_closed now w).0)
unfolding reset_closed
reset_closed-AllCoherent now none h = h
reset_closed-AllCoherent now (some r) h = ground arith

close_open-AllCoherent : (now : ℕ) → Keeps (λ w. (close_open now w).0)
unfolding close_open
close_open-AllCoherent now none h = h
close_open-AllCoherent now (some r) h = ground arith

create_if_missing-AllCoherent : Keeps create_if_missing
unfolding create_if_missing
create_if_missing-AllCoherent none h = ground arith
create_if_missing-AllCoherent (some r) h = h

increment_failures-IsCoherent :
    (f : CircuitFailure) (now : ℕ) (r : Row)
    → IsCoherent r
    → IsCoherent (increment_failures f now r)
increment_failures-IsCoherent f now r h = record {
  open_until = h.open_until;
  leased = h.leased;
  closed_clear = h.closed_clear;
  counted = omega (arith, h.counted);
}

module _ (env : Environment) (quiet : (k : ℕ) → Keeps (env k)) (c : WebhookConfig) (now : ℕ) where
  conclude-AllCoherent :
      (status : CircuitStatus) (r : Row) (ends : ℕ) (p : World × ℕ)
      → AllCoherent p.0
      → AllCoherent (conclude env status r ends p).1
  unfolding conclude
  conclude-AllCoherent status r ends (w, zero) h = quiet 2 w h
  conclude-AllCoherent status r ends (w, suc n) h = h

  decide-AllCoherent :
      (status : CircuitStatus) (r : Row) (w : World)
      → AllCoherent w
      → AllCoherent (decide status env c now r w).1
  unfolding decide
  decide-AllCoherent closed r w h = h
  decide-AllCoherent opened r w h =
      let ends = or_else r.cooldown_ends_at now in
      if_both Decided (ltb now ends) _ _ h (
        conclude-AllCoherent opened r ends (half_open_if_open c now ends (env 1 w))
          (half_open_if_open-AllCoherent c now ends (env 1 w) (quiet 1 w h)))
  decide-AllCoherent half_open r w h =
      let ends = or_else r.cooldown_ends_at (now + c.circuit_cooldown_ms) in
      if_both Decided (ltb now ends) _ _ h (
        conclude-AllCoherent half_open r ends (renew_lease c now (env 1 w))
          (renew_lease-AllCoherent c now (env 1 w) (quiet 1 w h)))

  decide_loaded-AllCoherent : Keeps (λ w. (decide_loaded env c now w).1)
  unfolding decide_loaded
  decide_loaded-AllCoherent none h = h
  decide_loaded-AllCoherent (some r) h = decide-AllCoherent r.status r (some r) h

  -- The decision before an attempt keeps the circuit coherent.
  pub before_attempt-AllCoherent : Keeps (λ w. (before_attempt env c now w).1)
  unfolding before_attempt
  before_attempt-AllCoherent w h =
      if_both Decided c.circuit_enabled _ _ (decide_loaded-AllCoherent (env 0 w) (quiet 0 w h)) h

  count_and_open-AllCoherent :
      (f : CircuitFailure) (probe : Bool) → Keeps (λ w. (count_and_open env c now f probe w).1)
  unfolding count_and_open open_if_due
  count_and_open-AllCoherent f probe none h = h
  count_and_open-AllCoherent f probe (some r) h =
      let counted = increment_failures-IsCoherent f now r h in
      let moved =
        transition_to_open-AllCoherent now (now + c.circuit_cooldown_ms)
          (env 3 (some (increment_failures f now r)))
          (quiet 3 (some (increment_failures f now r)) counted) in
      let due = probe || leb c.circuit_failure_threshold (r.consecutive_failures + 1) in
      if_both Recorded due _ _ (if_both Recorded _ _ _ moved moved) counted

  record_failure-AllCoherent : (f : CircuitFailure) → Keeps (λ w. (record_failure env c now f w).1)
  unfolding record_failure
  record_failure-AllCoherent f w h =
      let start = quiet 0 w h in
      let made = create_if_missing-AllCoherent (env 1 (env 0 w)) (quiet 1 (env 0 w) start) in
      if_both Recorded c.circuit_enabled _ _
        (count_and_open-AllCoherent f (was_half_open (env 0 w))
          (env 2 (create_if_missing (env 1 (env 0 w))))
          (quiet 2 (create_if_missing (env 1 (env 0 w))) made))
        h

  record_success-AllCoherent : Keeps (λ w. (record_success env c now w).0)
  unfolding record_success
  record_success-AllCoherent w h =
      let first = reset_closed-AllCoherent now (env 0 w) (quiet 0 w h) in
      let read = quiet 1 (reset_closed now (env 0 w)).0 first in
      if_both Settled c.circuit_enabled _ _
        (close_open-AllCoherent now (env 2 (env 1 (reset_closed now (env 0 w)).0))
          (quiet 2 (env 1 (reset_closed now (env 0 w)).0) read))
        h

-- Each of the three operations, whatever interference comes between its database calls, leaves the
-- circuit coherent if it found it so and the interference keeps it so.
pub operations_coherent :
    (env : Environment) (c : WebhookConfig) (now : ℕ) (f : CircuitFailure) (w : World)
    → ((k : ℕ) → Keeps (env k))
    → AllCoherent w
    → AllCoherent (before_attempt env c now w).1
      × AllCoherent (record_failure env c now f w).1
      × AllCoherent (record_success env c now w).0
operations_coherent env c now f w quiet h = (
  before_attempt-AllCoherent env quiet c now w h,
  record_failure-AllCoherent env quiet c now f w h,
  record_success-AllCoherent env quiet c now w h,
)
