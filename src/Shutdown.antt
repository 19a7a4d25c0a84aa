-- ===== src/Shutdown.antt =====
-- common/shutdown/shutdown-coordinator.service.ts: the sequence of a shutdown. What the coordinator waits for is
-- a Work, which says when and how it ends; times are milliseconds. Steps that run together take as long
-- as the longest. Signals, logs and the discovery of workers are left out.
pub mod Deadline
pub mod Clean
mod Tests
use astroid_api.Common.{
  ℕ, ◌+◌, ◌-◌, min, max, String, Bool, true, false, Option, none, some, List, [], ◌∷◌, ◌++◌, leb,
  if◌then◌else◌, keep,
}

pub data Work : Type 0 where
  never : Work
  settles rejects : (after : ℕ) → Work

pub data Phase : Type 0 where
  queues redis database : Phase

pub record Resource : Type 0 where
  pub name : String
  pub phase : Phase
  pub close : Work

-- A worker: pausing it, closing it, and closing it by force.
pub record Worker : Type 0 where
  pub name : String
  pub pause : Work
  pub close : Work
  pub force_close : Work

-- The application: draining its server if that is listening, `app.close()`, and when in the course of it the
-- lifecycle hook starts to close the resources, if it does.
pub record App : Type 0 where
  pub http : Option Work
  pub close : Work
  pub resources_from : Option ℕ

pub data Failure : Type 0 where
  http_expired app_timed_out app_failed : Failure
  worker_expired worker_timed_out worker_failed : (name : String) → Failure
  resource_timed_out resource_failed : (name : String) → Failure

pub data Outcome : Type 0 where
  settled timed_out threw : Outcome

abbrev pub resource_close_timeout_ms : ℕ
resource_close_timeout_ms = 3000

abbrev pub app_close_timeout_ms : ℕ
app_close_timeout_ms = 15000

-- `settleWithin`: how the race with the timer ends, and after how long. Work that ends at the limit counts as
-- in time.
abbrev pub outcome_within : ℕ → Work → Outcome
outcome_within timeout never = timed_out
outcome_within timeout (settles d) = if leb d timeout then settled else timed_out
outcome_within timeout (rejects d) = if leb d timeout then threw else timed_out

abbrev pub time_within : ℕ → Work → ℕ
time_within timeout never = timeout
time_within timeout (settles d) = min d timeout
time_within timeout (rejects d) = min d timeout

-- What a step takes and what it complains of.
pub record Ran : Type 0 where
  pub elapsed : ℕ
  pub failures : List Failure

-- Two steps that run together.
abbrev pub together : Ran → Ran → Ran
together a b = record { elapsed = max a.elapsed b.elapsed; failures = a.failures ++ b.failures }

abbrev pub at_once : Ran
at_once = record { elapsed = 0; failures = [] }

abbrev pub complaint : (late failed : Failure) → Outcome → List Failure
complaint late failed settled = []
complaint late failed timed_out = late ∷ []
complaint late failed threw = failed ∷ []

-- `drainHttp`; closing the server never rejects.
abbrev pub drain_http : ℕ → Option Work → Ran
drain_http grace none = at_once
drain_http grace (some closed) = record {
  elapsed = time_within grace closed;
  failures = complaint http_expired http_expired (outcome_within grace closed);
}

abbrev pub close_after : ℕ → Outcome → Worker → Ran
close_after paused settled w = record {
  elapsed = paused + time_within resource_close_timeout_ms w.close;
  failures =
      complaint (worker_timed_out w.name) (worker_failed w.name)
        (outcome_within resource_close_timeout_ms w.close);
}
close_after paused timed_out w = record {
  elapsed = paused + time_within resource_close_timeout_ms w.force_close;
  failures = elim (outcome_within resource_close_timeout_ms w.force_close) as (λ o. List Failure) [
    | threw ↦ worker_failed w.name ∷ []
    | _ ↦ worker_expired w.name ∷ []
  ];
}
close_after paused threw w = record { elapsed = paused; failures = worker_failed w.name ∷ [] }

-- One worker, with what is left until the deadline.
abbrev pub drain_worker : ℕ → Worker → Ran
drain_worker left w = close_after (time_within left w.pause) (outcome_within left w.pause) w

unfoldable pub drain_workers : ℕ → List Worker → Ran
drain_workers left [] = at_once
drain_workers left (w ∷ ws) = together (drain_worker left w) (drain_workers left ws)

abbrev pub close_resource : Resource → Ran
close_resource r = record {
  elapsed = time_within resource_close_timeout_ms r.close;
  failures =
      complaint (resource_timed_out r.name) (resource_failed r.name)
        (outcome_within resource_close_timeout_ms r.close);
}

abbrev pub same_phase : Phase → Phase → Bool
same_phase queues queues = true
same_phase redis redis = true
same_phase database database = true
same_phase _ _ = false

unfoldable pub close_all : List Resource → Ran
close_all [] = at_once
close_all (r ∷ rs) = together (close_resource r) (close_all rs)

abbrev pub close_phase : List Resource → Phase → Ran
close_phase resources phase = close_all (keep (λ r. same_phase r.phase phase) resources)

-- Two steps, one after the other.
abbrev pub then_run : Ran → Ran → Ran
then_run a b = record { elapsed = a.elapsed + b.elapsed; failures = a.failures ++ b.failures }

unfoldable pub close_resource_phases : List Resource → Ran
close_resource_phases resources =
    then_run (close_phase resources queues)
      (then_run (close_phase resources redis) (close_phase resources database))

-- When the resources started to close: in the hook, if it got there, or after `app.close()` was given up.
abbrev pub resources_start : ℕ → Option ℕ → ℕ
resources_start closed none = closed
resources_start closed (some t) = min t closed

unfoldable pub close_application : App → List Resource → Ran
close_application app resources =
    let closed = time_within app_close_timeout_ms app.close in
    let phases = close_resource_phases resources in
    record {
      elapsed = max closed (resources_start closed app.resources_from + phases.elapsed);
      failures =
          complaint app_timed_out app_failed (outcome_within app_close_timeout_ms app.close)
          ++ phases.failures;
    }

-- `run`: the failures and the time of the whole sequence.
unfoldable pub run : ℕ → App → List Worker → List Resource → Ran
unfolding drain_workers close_application
run grace app workers resources =
    let http = drain_http grace app.http in
    then_run http
      (then_run (drain_workers (grace - http.elapsed) workers) (close_application app resources))

abbrev pub exit_code_of : List Failure → ℕ
exit_code_of [] = 0
exit_code_of (f ∷ fs) = 1

unfoldable pub exit_code : ℕ → App → List Worker → List Resource → ℕ
unfolding run
exit_code grace app workers resources = exit_code_of (run grace app workers resources).failures
