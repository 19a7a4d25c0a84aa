-- ===== src/Shutdown/Deadline.antt =====
-- How long a shutdown can take.
use astroid_api.Common.{ℕ, ◌+◌, ◌-◌, ◌≤◌, Option, none, some, List, [], ◌∷◌, arith, keep}
use astroid_api.Shutdown.{
  Work, never, settles, rejects, queues, redis, database, Resource, Worker, App, Outcome, settled,
  timed_out, threw, outcome_within, time_within, drain_http, close_after, drain_workers, same_phase,
  close_all, close_resource_phases, resources_start, close_application, run,
}

time_within-le : (t : ℕ) (w : Work) → time_within t w ≤ t
time_within-le t never = omega arith
time_within-le t (settles d) = omega arith
time_within-le t (rejects d) = omega arith

close_after-le :
    (paused : ℕ) (o : Outcome) (w : Worker) → (close_after paused o w).elapsed ≤ paused + 3000
close_after-le paused settled w = omega (arith, time_within-le 3000 w.close)
close_after-le paused timed_out w = omega (arith, time_within-le 3000 w.force_close)
close_after-le paused threw w = omega arith

drain_workers-le : (left : ℕ) (ws : List Worker) → (drain_workers left ws).elapsed ≤ left + 3000
unfolding drain_workers
drain_workers-le left [] = omega arith
drain_workers-le left (w ∷ ws) = omega (
  arith,
  drain_workers-le left ws,
  close_after-le (time_within left w.pause) (outcome_within left w.pause) w,
  time_within-le left w.pause,
)

close_all-le : (rs : List Resource) → (close_all rs).elapsed ≤ 3000
unfolding close_all
close_all-le [] = omega arith
close_all-le (r ∷ rs) = omega (arith, close_all-le rs, time_within-le 3000 r.close)

phases-le : (rs : List Resource) → (close_resource_phases rs).elapsed ≤ 9000
unfolding close_resource_phases
phases-le rs = omega (
  arith,
  close_all-le (keep (λ r. same_phase r.phase queues) rs),
  close_all-le (keep (λ r. same_phase r.phase redis) rs),
  close_all-le (keep (λ r. same_phase r.phase database) rs),
)

resources_start-le : (closed : ℕ) (o : Option ℕ) → resources_start closed o ≤ closed
resources_start-le closed none = omega arith
resources_start-le closed (some t) = omega arith

http-le : (grace : ℕ) (o : Option Work) → (drain_http grace o).elapsed ≤ grace
http-le grace none = omega arith
http-le grace (some w) = time_within-le grace w

-- A shutdown cannot hang: whatever the server, the workers, the application's hooks and the resources do,
-- even if none of it ever ends, it is over at most 27 seconds after the grace period.
pub shutdown_ends :
    (grace : ℕ) (app : App) (workers : List Worker) (resources : List Resource)
    → (run grace app workers resources).elapsed ≤ grace + 27000
unfolding run close_application
shutdown_ends grace app workers resources =
    let closed = time_within 15000 app.close in
    omega (
      arith,
      http-le grace app.http,
      drain_workers-le (grace - (drain_http grace app.http).elapsed) workers,
      time_within-le 15000 app.close,
      resources_start-le closed app.resources_from,
      phases-le resources,
    )
