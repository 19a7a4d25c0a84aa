-- ===== src/Approvals/Tests.antt =====
-- A proposal that needs two approvals.
use astroid_api.Common.{ℕ, ◌≤◌, String, ◌≡◌, refl, true, some, List, [], ◌∷◌, map, arith}
use astroid_api.Approvals.{
  pending, executed, decision_approved, Proposal, Desk, Transactions, commit, decide,
}
use astroid_api.Approvals.Outcomes.{
  Ballot, run, times_executed, IsSound, run-IsSound, run_executes_once,
}
use astroid_api.Approvals.Race.{overlapping_votes_execute}

abbrev proposal : Proposal
proposal = record { status = pending; expires_at = some 100; required_approvals = 2 }

abbrev new_desk : Desk
new_desk = record { proposal = some proposal; approvals = [] }

abbrev willing : Transactions
willing = record { cancels = true; executes = true }

abbrev vote : String → ℕ → Ballot
vote actor now = record {
  actor = actor;
  now = now;
  decision = decision_approved;
  transactions = willing;
}

abbrev votes : List Ballot
votes = vote "ann" 10 ∷ vote "ann" 20 ∷ vote "bob" 30 ∷ vote "cy" 40 ∷ []

votes_execute : (run votes new_desk).proposal ≡ some (record proposal { status = executed })
unfolding decide
votes_execute = refl

new_desk-IsSound : IsSound new_desk
new_desk-IsSound = ground arith

run-IsSound_example : IsSound (run votes new_desk)
run-IsSound_example = run-IsSound votes new_desk new_desk-IsSound

run_executes_once_example : times_executed votes new_desk ≤ 1
run_executes_once_example = run_executes_once votes new_desk

overlapping_votes_execute_example :
    let first = commit willing "ann" decision_approved proposal new_desk in
    let second = commit willing "ann" decision_approved proposal first.1 in
    (first.1.proposal ≡ some proposal)
    × (second.1.proposal ≡ some (record proposal { status = executed }))
    × (map (λ a. a.user_id) second.1.approvals ≡ "ann" ∷ "ann" ∷ [])
overlapping_votes_execute_example = overlapping_votes_execute "ann" willing proposal refl refl refl
