-- ===== src/WebhookCircuit/Queries.antt =====
-- modules/webhooks/services/webhook-circuit.service.ts: the row of a webhook endpoint's circuit, and the
-- database calls on it, each of which is atomic.
use astroid_api.Common.{
  ℕ, ◌+◌, String, Bool, true, false, ◌&&◌, ◌||◌, Option, none, some, ◌==◌, if◌then◌else◌,
}

pub data CircuitStatus : Type 0 where
  closed opened half_open : CircuitStatus

pub record Row : Type 0 where
  pub status : CircuitStatus
  pub consecutive_failures : ℕ
  pub total_failures : ℕ
  pub opened_at : Option ℕ
  pub cooldown_ends_at : Option ℕ
  pub last_failure_at : Option ℕ
  pub last_failure_code : Option String
  pub last_failure_reason : Option String
  pub last_success_at : Option ℕ

-- The row of the endpoint, if it has been created.
abbrev pub World : Type 0
World = Option Row

pub record WebhookConfig : Type 0 where
  pub circuit_enabled : Bool
  pub circuit_failure_threshold : ℕ
  pub circuit_cooldown_ms : ℕ

pub record CircuitFailure : Type 0 where
  pub code : String
  pub reason : String

abbrev pub same_status : CircuitStatus → CircuitStatus → Bool
same_status closed closed = true
same_status opened opened = true
same_status half_open half_open = true
same_status _ _ = false

abbrev pub same_time : Option ℕ → Option ℕ → Bool
same_time none none = true
same_time (some a) (some b) = a == b
same_time _ _ = false

-- `updateMany`: the row is changed if it matches, and the count says whether it did.
unfoldable pub update_many : (Row → Bool) → (Row → Row) → World → World × ℕ
update_many matches change none = (none, 0)
update_many matches change (some r) = if matches r then (some (change r), 1) else (some r, 0)

-- The first conditional update of `beforeAttempt`: the circuit is open with that very cooldown.
unfoldable pub half_open_if_open : WebhookConfig → ℕ → ℕ → World → World × ℕ
unfolding update_many
half_open_if_open c now ends =
    update_many (λ r. same_status r.status opened && same_time r.cooldown_ends_at (some ends))
      (λ r. record r {
        status = half_open;
        opened_at = none;
        cooldown_ends_at = some (now + c.circuit_cooldown_ms);
      })

-- The second: the lease of a lost probe is renewed.
unfoldable pub renew_lease : WebhookConfig → ℕ → World → World × ℕ
unfolding update_many
renew_lease c now =
    update_many (λ r. same_status r.status half_open)
      (λ r. record r { cooldown_ends_at = some (now + c.circuit_cooldown_ms) })

abbrev pub new_row : Row
new_row = record {
  status = closed;
  consecutive_failures = 0;
  total_failures = 0;
  opened_at = none;
  cooldown_ends_at = none;
  last_failure_at = none;
  last_failure_code = none;
  last_failure_reason = none;
  last_success_at = none;
}

-- `createMany` with `skipDuplicates`
unfoldable pub create_if_missing : World → World
create_if_missing none = some new_row
create_if_missing (some r) = some r

abbrev pub increment_failures : CircuitFailure → ℕ → Row → Row
increment_failures f now r = record r {
  consecutive_failures = r.consecutive_failures + 1;
  total_failures = r.total_failures + 1;
  last_failure_at = some now;
  last_failure_code = some f.code;
  last_failure_reason = some f.reason;
}

unfoldable pub transition_to_open : ℕ → ℕ → World → World × ℕ
unfolding update_many
transition_to_open now ends =
    update_many (λ r. same_status r.status closed || same_status r.status half_open)
      (λ r. record r { status = opened; opened_at = some now; cooldown_ends_at = some ends })

unfoldable pub was_half_open : World → Bool
was_half_open none = false
was_half_open (some r) = same_status r.status half_open

unfoldable pub reset_closed : ℕ → World → World × ℕ
unfolding update_many
reset_closed now =
    update_many (λ r. same_status r.status closed)
      (λ r. record r { consecutive_failures = 0; last_success_at = some now })

unfoldable pub close_open : ℕ → World → World × ℕ
unfolding update_many
close_open now =
    update_many (λ r. same_status r.status opened || same_status r.status half_open)
      (λ r. record r {
        status = closed;
        consecutive_failures = 0;
        opened_at = none;
        cooldown_ends_at = none;
        last_success_at = some now;
      })

unfoldable pub status_of : World → Option CircuitStatus
status_of none = none
status_of (some r) = some r.status
