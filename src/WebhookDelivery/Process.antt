-- ===== src/WebhookDelivery/Process.antt =====
-- modules/webhooks/webhooks.processor.ts, `process`: one attempt of a job. The circuit's decision and how the
-- request goes are arguments; logs, traces and headers are left out.
use astroid_api.Common.{
  ℕ, ◌+◌, Bool, not, ◌&&◌, ◌||◌, Option, none, some, List, [], ◌∷◌, ◌++◌, ltb, leb, ◌==◌,
  if◌then◌else◌, or_else,
}
use astroid_api.WebhookCircuit.{CircuitDecision}
use astroid_api.WebhookDelivery.Classification.{
  FailureCategory, permanent_failure, circuit_open, FailureCode, webhook_configuration,
  circuit_is_open, Message, other_message, of_status, Thrown, destination_error, resolution_error,
  permanent_error, plain_error, classify_webhook_failure, is_redirect,
}

pub data DeliveryStatus : Type 0 where
  retrying failed delivered : DeliveryStatus

-- The row of a delivery, as an attempt writes it.
pub record Delivery : Type 0 where
  pub status : DeliveryStatus
  pub attempts : ℕ
  pub response_status : Option ℕ
  pub failure_category : Option FailureCategory
  pub failure_code : Option FailureCode
  pub next_retry_at : Option ℕ

-- How the body of an attempt goes: what is thrown before an answer arrives, or the status of the answer
-- and, for a successful one, whether the circuit could record it.
pub data Attempt : Type 0 where
  breaks : Thrown → Attempt
  answers : (status : ℕ) (recorded : Bool) → Attempt

-- How the job ends: BullMQ delays it, gives it up, or counts the failure as an attempt.
pub data Ended : Type 0 where
  succeeds gives_up fails : Ended
  delays : (until : ℕ) → Ended

-- Calls of the circuit and of the audit that return.
pub data Effect : Type 0 where
  record_success record_failure audit_terminal_failure : Effect

pub record Processed : Type 0 where
  pub ended : Ended
  pub row : Option Delivery
  pub effects : List Effect

-- The job and the configuration: `job.attemptsMade`, the limit of attempts, the retry delay, whether a circuit
-- is there and enabled, the length of its cooldown, whether it can record a failure, and whether the job can
-- be moved to the delayed ones.
pub record Job : Type 0 where
  pub attempts_made : ℕ
  pub attempts : Option ℕ
  pub webhook_delivery_max_attempts : ℕ
  pub webhook_retry_delay_ms : ℕ
  pub circuit_enabled : Bool
  pub cooldown_ms : ℕ
  pub failure_recorded : Bool
  pub delayable : Bool

abbrev pub max_attempts : Job → ℕ
max_attempts j = or_else j.attempts j.webhook_delivery_max_attempts

abbrev pub is_last_attempt : Job → Bool
is_last_attempt j = leb (max_attempts j) (j.attempts_made + 1)

-- `[408, 425, 429].includes(status)`
abbrev pub is_retried_status : ℕ → Bool
is_retried_status s = s == 408 || (s == 425 || s == 429)

abbrev pub is_client_error : ℕ → Bool
is_client_error s = (leb 400 s && ltb s 500) && not (is_retried_status s)

abbrev pub is_success : ℕ → Bool
is_success s = leb 200 s && ltb s 300

-- `HTTP ${status}`, which the classifier recognizes when the status has three digits.
abbrev pub status_message : ℕ → Message
status_message s = if leb 100 s && leb s 999 then of_status s else other_message

-- What the body throws, if it throws; redirects and client errors are `isNonTransient`.
abbrev pub thrown_by : Attempt → Option Thrown
thrown_by (breaks e) = some e
thrown_by (answers s recorded) =
    if is_success s
    then (if recorded then none else some (plain_error other_message))
    else if is_redirect s
    then some (permanent_error other_message)
    else if is_client_error s
    then some (permanent_error (status_message s))
    else some (plain_error (status_message s))

abbrev pub response_of : Attempt → Option ℕ
response_of (breaks e) = none
response_of (answers s recorded) = some s

-- A delivery that will not be tried again, without an answer or with one.
abbrev pub permanent_row : Job → Thrown → Option ℕ → Delivery
permanent_row j e none = record {
  status = failed;
  attempts = j.attempts_made + 1;
  response_status = none;
  failure_category = some permanent_failure;
  failure_code = some webhook_configuration;
  next_retry_at = none;
}
permanent_row j e (some s) =
    let c = classify_webhook_failure e (some s) in
    record {
      status = failed;
      attempts = j.attempts_made + 1;
      response_status = some s;
      failure_category = some c.category;
      failure_code = some c.code;
      next_retry_at = none;
    }

abbrev pub failed_row : ℕ → Job → Thrown → Option ℕ → Delivery
failed_row now j e response =
    let c = classify_webhook_failure e response in
    record {
      status = if is_last_attempt j then failed else retrying;
      attempts = j.attempts_made + 1;
      response_status = response;
      failure_category = some c.category;
      failure_code = some c.code;
      next_retry_at = if is_last_attempt j then none else some (now + j.webhook_retry_delay_ms);
    }

-- A failure that counts: the circuit is told first, and if it throws nothing is written.
abbrev pub count_failure : ℕ → Job → Thrown → Option ℕ → Processed
count_failure now j e response =
    let told : List Effect = if j.circuit_enabled then record_failure ∷ [] else [] in
    if j.circuit_enabled && not j.failure_recorded
    then record { ended = fails; row = none; effects = [] }
    else record {
      ended = fails;
      row = some (failed_row now j e response);
      effects = if is_last_attempt j then told ++ audit_terminal_failure ∷ [] else told;
    }

-- The `catch` of the attempt.
unfoldable pub handle : ℕ → Job → Thrown → Option ℕ → Processed
handle now j destination_error response = record {
  ended = gives_up;
  row = some (record {
    status = failed;
    attempts = j.attempts_made + 1;
    response_status = none;
    failure_category = none;
    failure_code = none;
    next_retry_at = none;
  });
  effects = audit_terminal_failure ∷ [];
}
handle now j (permanent_error m) response = record {
  ended = gives_up;
  row = some (permanent_row j (permanent_error m) response);
  effects = audit_terminal_failure ∷ [];
}
handle now j resolution_error response = count_failure now j resolution_error response
handle now j (plain_error m) response = count_failure now j (plain_error m) response

abbrev pub delivered_row : Job → Option ℕ → Delivery
delivered_row j response = record {
  status = delivered;
  attempts = j.attempts_made + 1;
  response_status = response;
  failure_category = none;
  failure_code = none;
  next_retry_at = none;
}

abbrev pub finish : ℕ → Job → Attempt → Option Thrown → Processed
finish now j a (some e) = handle now j e (response_of a)
finish now j a none = record {
  ended = succeeds;
  row = some (delivered_row j (response_of a));
  effects = record_success ∷ [];
}

unfoldable pub attempt : ℕ → Job → Attempt → Processed
unfolding handle
attempt now j a = finish now j a (thrown_by a)

-- The job is put back with `moveToDelayed`.
abbrev pub defer : ℕ → Job → CircuitDecision → Processed
defer now j d =
    let until = or_else d.retry_at (now + j.cooldown_ms) in
    record {
      ended = if j.delayable then delays until else fails;
      row = some (record {
        status = retrying;
        attempts = j.attempts_made;
        response_status = none;
        failure_category = some circuit_open;
        failure_code = some circuit_is_open;
        next_retry_at = some until;
      });
      effects = [];
    }

unfoldable pub process : ℕ → Job → CircuitDecision → Attempt → Processed
unfolding attempt
process now j d a = if j.circuit_enabled && not d.allowed then defer now j d else attempt now j a
