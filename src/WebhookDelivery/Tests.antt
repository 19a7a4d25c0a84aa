-- ===== src/WebhookDelivery/Tests.antt =====
-- A webhook that answers 503, 410 and 200.
use astroid_api.Common.{
  ◌≤◌, ◌<◌, ◌+◌, List, [], ◌∷◌, none, false, ◌≡◌, refl, ◌↔◌, true, false, some, arith,
}
use astroid_api.WebhookDelivery.Classification.{
  classify_webhook_failure, classify_http_status, non_transient_statuses, http, transient_failure,
}
use astroid_api.WebhookDelivery.Process.{
  Processed, Delivery, retrying, answers, gives_up, Job, is_retried_status, attempt, handle,
}
use astroid_api.WebhookDelivery.Agreement.{disagreement_iff}
use astroid_api.WebhookDelivery.Exhaustion.{
  Visit, run_job, all_sent, IsServed, IsSettled, job_settles,
}
use astroid_api.WebhookCircuit.{CircuitDecision, CircuitStatus}

abbrev job : Job
job = record {
  attempts_made = 0;
  attempts = some 3;
  webhook_delivery_max_attempts = 5;
  webhook_retry_delay_ms = 2000;
  circuit_enabled = true;
  cooldown_ms = 60000;
  failure_recorded = true;
  delayable = true;
}

disagreement_iff_example :
    (((attempt 0 job (answers 410 true)).ended ≡ gives_up)
      × ((classify_http_status 410).transient ≡ true))
    ↔ (((400 ≤ 410) × (410 < 500))
        × ((non_transient_statuses 410 ≡ false) × (is_retried_status 410 ≡ false)))
disagreement_iff_example = disagreement_iff 0 job 410 true

abbrev unavailable : Delivery
unavailable = record {
  status = retrying;
  attempts = 1;
  response_status = some 503;
  failure_category = some transient_failure;
  failure_code = some (http 503);
  next_retry_at = some 2007;
}

reads : Unit {0}
unfolding attempt handle classify_http_status classify_webhook_failure
reads = tt

abbrev open_circuit : CircuitDecision
open_circuit = record {
  allowed = false;
  status = CircuitStatus.opened;
  consecutive_failures = 5;
  retry_at = some 62000;
}

abbrev lets_through : CircuitDecision
lets_through = record {
  allowed = true;
  status = CircuitStatus.closed;
  consecutive_failures = 0;
  retry_at = none;
}

-- Unavailable, deferred, unavailable again, delivered.
abbrev visits : List Visit
visits =
    record { now = 0; circuit = lets_through; goes = answers 503 true }
    ∷ record { now = 2000; circuit = open_circuit; goes = answers 200 true }
    ∷ record { now = 62000; circuit = lets_through; goes = answers 503 true }
    ∷ record { now = 64000; circuit = lets_through; goes = answers 200 true }
    ∷ []

sends : 3 ≤ 0 + all_sent true visits
unfolding all_sent
sends = omega arith

served : IsServed job
served = (refl, refl, refl)

job_settles_example : (p : Processed) × ((run_job visits job ≡ some p) × IsSettled p)
job_settles_example = job_settles visits job served (omega arith) sends
