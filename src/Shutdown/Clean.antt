-- ===== src/Shutdown/Clean.antt =====
-- When a shutdown exits with code 0.
use astroid_api.Common.{
  ℕ, ◌-◌, String, ◌≡◌, refl, ◌↔◌, true, Option, none, some, List, [], ◌∷◌, ◌++◌, arith, All, keep,
  keep-All, All-filter,
}
use astroid_api.Shutdown.{
  Work, Phase, queues, redis, database, Resource, Worker, App, Failure, Outcome, settled, timed_out,
  threw, outcome_within, time_within, complaint, worker_failed, worker_timed_out,
  resource_timed_out, resource_failed, app_timed_out, app_failed, worker_expired, drain_http,
  close_after, drain_worker, drain_workers, close_resource, same_phase, close_all,
  close_resource_phases, close_application, run, exit_code, exit_code_of,
}

-- Work that ends well in time.
abbrev pub InTime : ℕ → Work → Type 0
InTime t w = outcome_within t w ≡ settled

abbrev pub IsDrained : ℕ → Worker → Type 0
IsDrained left w = InTime left w.pause × InTime 3000 w.close

abbrev pub HttpInTime : ℕ → Option Work → Type 0
HttpInTime grace none = Unit
HttpInTime grace (some w) = InTime grace w

-- The failures of two steps are none exactly when those of each are.
none-append : {A : Type 0} (xs ys : List A) → (xs ++ ys ≡ []) ↔ ((xs ≡ []) × (ys ≡ []))
none-append [] ys = (λ h. (refl, h), λ h. h.1)
none-append (x ∷ xs) ys = (λ h. absurd (ground (arith, h)), λ h. absurd (ground (arith, h.0)))

none-complaint :
    (late failed : Failure) (o : Outcome) → (complaint late failed o ≡ []) ↔ (o ≡ settled)
none-complaint late failed settled = (λ h. refl, λ h. refl)
none-complaint late failed timed_out =
    (λ h. absurd (ground (arith, h)), λ h. absurd (ground (arith, h)))
none-complaint late failed threw =
    (λ h. absurd (ground (arith, h)), λ h. absurd (ground (arith, h)))

forced-fails :
    (o : Outcome) (name : String)
    → ¬ (
        (elim o as (λ o. List Failure) [
          | threw ↦ worker_failed name ∷ []
          | _ ↦ worker_expired name ∷ []
        ])
        ≡ [])
forced-fails settled name h = ground (arith, h)
forced-fails timed_out name h = ground (arith, h)
forced-fails threw name h = ground (arith, h)

close_after-clean :
    (paused : ℕ) (o : Outcome) (w : Worker)
    → ((close_after paused o w).failures ≡ []) ↔ ((o ≡ settled) × InTime 3000 w.close)
close_after-clean paused settled w =
    let (into, back) =
      none-complaint (worker_timed_out w.name) (worker_failed w.name)
        (outcome_within 3000 w.close) in
    (λ h. (refl, into h), λ h. back h.1)
close_after-clean paused timed_out w = (
  λ h. absurd (forced-fails (outcome_within 3000 w.force_close) w.name h),
  λ h. absurd (ground (arith, h.0)),
)
close_after-clean paused threw w =
    (λ h. absurd (ground (arith, h)), λ h. absurd (ground (arith, h.0)))

drain_workers-clean :
    (left : ℕ) (ws : List Worker)
    → ((drain_workers left ws).failures ≡ []) ↔ All (IsDrained left) ws
unfolding drain_workers
drain_workers-clean left [] = (λ h. tt, λ h. refl)
drain_workers-clean left (w ∷ ws) =
    let (into, back) = drain_workers-clean left ws in
    let (one, one') =
      close_after-clean (time_within left w.pause) (outcome_within left w.pause) w in
    let (apart, join) =
      none-append (drain_worker left w).failures (drain_workers left ws).failures in
    (λ h. let (a, b) = apart h in (one a, into b), λ h. join (one' h.0, back h.1))

close_all-clean :
    (rs : List Resource) → ((close_all rs).failures ≡ []) ↔ All (λ r. InTime 3000 r.close) rs
unfolding close_all
close_all-clean [] = (λ h. tt, λ h. refl)
close_all-clean (r ∷ rs) =
    let (into, back) = close_all-clean rs in
    let (one, one') =
      none-complaint (resource_timed_out r.name) (resource_failed r.name)
        (outcome_within 3000 r.close) in
    let (apart, join) = none-append (close_resource r).failures (close_all rs).failures in
    (λ h. let (a, b) = apart h in (one a, into b), λ h. join (one' h.0, back h.1))

-- Every resource is in one of the phases.
phases-cover :
    (P : Resource → Type 0) (rs : List Resource)
    → All (λ r. same_phase r.phase queues ≡ true → P r) rs
    → All (λ r. same_phase r.phase redis ≡ true → P r) rs
    → All (λ r. same_phase r.phase database ≡ true → P r) rs
    → All P rs
phases-cover P [] q r d = tt
phases-cover P (x ∷ xs) q r d = (here x.phase refl, phases-cover P xs q.1 r.1 d.1)
  where
    here : (p : Phase) → x.phase ≡ p → P x
    here queues e = q.0 (rw e refl)
    here redis e = r.0 (rw e refl)
    here database e = d.0 (rw e refl)

phases-clean :
    (rs : List Resource)
    → ((close_resource_phases rs).failures ≡ []) ↔ All (λ r. InTime 3000 r.close) rs
unfolding close_resource_phases
phases-clean rs =
    let P : Resource → Type 0 = λ r. InTime 3000 r.close in
    let of : Phase → List Resource = λ p. keep (λ r. same_phase r.phase p) rs in
    let first = none-append (close_all (of queues)).failures _ in
    let second = none-append (close_all (of redis)).failures (close_all (of database)).failures in
    let part : (p : Phase)
        → (close_all (of p)).failures ≡ []
        → All (λ r. same_phase r.phase p ≡ true → P r) rs =
      λ p h. keep-All P (λ r. same_phase r.phase p) rs ((close_all-clean (of p)).0 h) in
    let whole : (p : Phase) → All P rs → (close_all (of p)).failures ≡ [] =
      λ p h. (close_all-clean (of p)).1 (All-filter P (λ r. same_phase r.phase p) rs h) in
    (
      λ h.
          let (a, bc) = first.0 h in
          let (b, c) = second.0 bc in
          phases-cover P rs (part queues a) (part redis b) (part database c),
      λ h. first.1 (whole queues h, second.1 (whole redis h, whole database h)),
    )

http-clean :
    (grace : ℕ) (o : Option Work) → ((drain_http grace o).failures ≡ []) ↔ HttpInTime grace o
http-clean grace none = (λ h. tt, λ h. refl)
http-clean grace (some w) = none-complaint _ _ (outcome_within grace w)

exit_code-none : (fs : List Failure) → (exit_code_of fs ≡ 0) ↔ (fs ≡ [])
exit_code-none [] = (λ h. refl, λ h. refl)
exit_code-none (f ∷ fs) = (λ h. absurd (ground (arith, h)), λ h. absurd (ground (arith, h)))

-- The process exits with code 0 exactly when the requests in flight end within the grace period, every
-- worker pauses in what is left of it and closes within 3 seconds, the application closes within 15
-- seconds, and every resource of every phase within 3.
pub exit_code_iff :
    (grace : ℕ) (app : App) (workers : List Worker) (resources : List Resource)
    → (exit_code grace app workers resources ≡ 0) ↔ (
        HttpInTime grace app.http
        × (All (IsDrained (grace - (drain_http grace app.http).elapsed)) workers
            × (InTime 15000 app.close × All (λ r. InTime 3000 r.close) resources)))
unfolding exit_code run close_application
exit_code_iff grace app workers resources =
    let left = grace - (drain_http grace app.http).elapsed in
    let first = none-append (drain_http grace app.http).failures _ in
    let second =
      none-append (drain_workers left workers).failures
        (close_application app resources).failures in
    let closed = none-complaint app_timed_out app_failed (outcome_within 15000 app.close) in
    let third =
      none-append (complaint app_timed_out app_failed (outcome_within 15000 app.close))
        (close_resource_phases resources).failures in
    let code = exit_code-none (run grace app workers resources).failures in
    (
      λ h.
          let (a, bc) = first.0 (code.0 h) in
          let (b, c) = second.0 bc in
          let (d, e) = third.0 c in
          (
            (http-clean grace app.http).0 a,
            ((drain_workers-clean left workers).0 b, (closed.0 d, (phases-clean resources).0 e)),
          ),
      λ (a, (b, (d, e))). code.1 (
          first.1 (
            (http-clean grace app.http).1 a,
            second.1 (
              (drain_workers-clean left workers).1 b,
              third.1 (closed.1 d, (phases-clean resources).1 e),
            ),
          )),
    )
