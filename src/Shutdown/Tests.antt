-- ===== src/Shutdown/Tests.antt =====
-- A shutdown that is in order but for a worker that never closes.
use astroid_api.Common.{◌-◌, ◌≤◌, ◌≡◌, ◌↔◌, refl, some, List, [], ◌∷◌, All}
use astroid_api.Shutdown.{
  never, settles, rejects, Resource, redis, database, Worker, App, drain_http, run, exit_code,
}
use astroid_api.Shutdown.Deadline.{shutdown_ends}
use astroid_api.Shutdown.Clean.{InTime, IsDrained, HttpInTime, exit_code_iff}

abbrev app : App
app = record { http = some (settles 40); close = settles 900; resources_from = some 100 }

abbrev mail : Worker
mail = record { name = "mail"; pause = settles 10; close = never; force_close = settles 5 }

abbrev resources : List Resource
resources =
    record { name = "postgres"; phase = database; close = settles 20 }
    ∷ record { name = "redis"; phase = redis; close = rejects 1 }
    ∷ []

shutdown_ends_example : (run 20000 app (mail ∷ []) resources).elapsed ≤ 47000
shutdown_ends_example = shutdown_ends 20000 app (mail ∷ []) resources

exit_code_iff_example : (exit_code 20000 app (mail ∷ []) resources ≡ 0) ↔ (
    HttpInTime 20000 app.http
    × (All (IsDrained (20000 - (drain_http 20000 app.http).elapsed)) (mail ∷ [])
        × (InTime 15000 app.close × All (λ r. InTime 3000 r.close) resources)))
exit_code_iff_example = exit_code_iff 20000 app (mail ∷ []) resources

fails : exit_code 20000 app (mail ∷ []) resources ≡ 1
unfolding exit_code
fails = refl
