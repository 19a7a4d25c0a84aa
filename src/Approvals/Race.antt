-- ===== src/Approvals/Race.antt =====
-- Two decisions of one user that overlap: both read the votes before either writes its own.
use astroid_api.Common.{String, ◌≡◌, true, some, [], ◌∷◌, map, arith}
use astroid_api.Approvals.{
  pending, executed, decision_approved, Proposal, Desk, Transactions, commit,
}

-- If a proposal needs two approvals and has no vote yet, and both of the user's calls have passed the
-- checks, then their writes, one after the other, execute the transaction on two votes of one user.
pub overlapping_votes_execute :
    (actor : String) (t : Transactions) (p : Proposal)
    → p.required_approvals ≡ 2
    → t.executes ≡ true
    → p.status ≡ pending
    → let d : Desk = record { proposal = some p; approvals = [] } in
      let first = commit t actor decision_approved p d in
      let second = commit t actor decision_approved p first.1 in
      (first.1.proposal ≡ some p)
      × (second.1.proposal ≡ some (record p { status = executed }))
      × (map (λ a. a.user_id) second.1.approvals ≡ actor ∷ actor ∷ [])
unfolding commit
overlapping_votes_execute actor t p r e s = ground (arith, r, e, s)
