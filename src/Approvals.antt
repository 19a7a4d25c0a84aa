-- ===== src/Approvals.antt =====
-- modules/approvals/approval.service.ts, `decide`, with the queries of approval.repository.ts: one proposal
-- with its votes. The transaction service is a parameter that says whether its call returns or
-- throws. `decide` is its reads and checks, then `commit`, which starts with the write of the vote.
pub mod Outcomes
pub mod Race
mod Tests
use astroid_api.Common.{
  ℕ, suc, String, Bool, true, false, not, ◌||◌, Option, none, some, List, [], ◌∷◌, str_eq, ltb,
  if◌then◌else◌,
}
use astroid_api.Common.Results.{Result, ok, err}

pub data ProposalStatus : Type 0 where
  draft pending approved rejected expired executed cancelled : ProposalStatus

pub data ApprovalDecision : Type 0 where
  decision_approved decision_rejected decision_delegated decision_expired : ApprovalDecision

pub record Proposal : Type 0 where
  pub status : ProposalStatus
  pub expires_at : Option ℕ
  pub required_approvals : ℕ

pub record Approval : Type 0 where
  pub user_id : String
  pub decision : ApprovalDecision

-- The rows of one proposal: itself, if it exists in the organization, and the votes, latest first.
pub record Desk : Type 0 where
  pub proposal : Option Proposal
  pub approvals : List Approval

pub data DecideError : Type 0 where
  not_found proposal_expired already_voted transaction_error : DecideError
  proposal_not_pending : ProposalStatus → DecideError

-- Calls of the transaction service, and events.
pub data Effect : Type 0 where
  cancel_transaction execute_transaction : Effect
  emit_expired emit_rejected emit_executed : Effect
  emit_approved : (approvals : ℕ) → Effect

-- Whether the calls of the transaction service return.
pub record Transactions : Type 0 where
  pub cancels : Bool
  pub executes : Bool

abbrev pub is_pending : ProposalStatus → Bool
is_pending pending = true
is_pending _ = false

abbrev pub is_rejection : ApprovalDecision → Bool
is_rejection decision_rejected = true
is_rejection _ = false

abbrev pub is_approval : ApprovalDecision → Bool
is_approval decision_approved = true
is_approval _ = false

-- `proposal.expiresAt && proposal.expiresAt.getTime() < Date.now()`
abbrev pub is_expired : ℕ → Option ℕ → Bool
is_expired now none = false
is_expired now (some t) = ltb t now

-- `findApprovalByUser`
abbrev pub has_voted : String → List Approval → Bool
has_voted actor [] = false
has_voted actor (a ∷ more) = str_eq a.user_id actor || has_voted actor more

-- `countApprovals(proposalId, 'APPROVED')`
abbrev pub count_approvals : List Approval → ℕ
count_approvals [] = 0
count_approvals (a ∷ more) =
    let rest = count_approvals more in if is_approval a.decision then suc rest else rest

abbrev pub set_status : ProposalStatus → Option Proposal → Option Proposal
set_status status none = none
set_status status (some p) = some (record p { status = status })

-- `updateProposalStatus`
abbrev pub update_proposal_status : ProposalStatus → Desk → Desk
update_proposal_status status d = record d { proposal = set_status status d.proposal }

abbrev pub get_or_throw : Desk → Result DecideError Proposal
get_or_throw d = elim d.proposal as (λ o. Result DecideError Proposal) [
  | none ↦ err not_found
  | some p ↦ ok p
]

abbrev pub Decided : Type 0
Decided = Result DecideError Proposal × Desk × List Effect

-- The part of `decide` for a rejection, from the write of the vote on.
unfoldable pub reject : Transactions → Desk → Decided
reject t d =
    let d' = update_proposal_status rejected d in
    if t.cancels
    then (get_or_throw d', d', cancel_transaction ∷ emit_rejected ∷ [])
    else (err transaction_error, d', cancel_transaction ∷ [])

-- And for any other decision, with the proposal that was loaded.
unfoldable pub approve : Transactions → Proposal → Desk → Decided
approve t p d =
    let approvals = count_approvals d.approvals in
    let d' = update_proposal_status approved d in
    let d'' = update_proposal_status executed d' in
    if ltb approvals p.required_approvals
    then (get_or_throw d, d, [])
    else if t.executes
    then (get_or_throw d'', d'', emit_approved approvals ∷ execute_transaction ∷ emit_executed ∷ [])
    else (err transaction_error, d', emit_approved approvals ∷ execute_transaction ∷ [])

unfoldable pub commit : Transactions → String → ApprovalDecision → Proposal → Desk → Decided
unfolding reject approve
commit t actor decision p d =
    let d' : Desk = record d {
      approvals = record { user_id = actor; decision = decision } ∷ d.approvals;
    } in
    if is_rejection decision then reject t d' else approve t p d'

unfoldable pub decide_loaded :
    Transactions → String → ℕ → ApprovalDecision → Proposal → Desk → Decided
unfolding commit
decide_loaded t actor now decision p d =
    if not (is_pending p.status)
    then (err (proposal_not_pending p.status), d, [])
    else if is_expired now p.expires_at
    then (err proposal_expired, update_proposal_status expired d, emit_expired ∷ [])
    else if has_voted actor d.approvals
    then (err already_voted, d, [])
    else commit t actor decision p d

abbrev decide_found :
    Transactions → String → ℕ → ApprovalDecision → Option Proposal → Desk → Decided
decide_found t actor now decision none d = (err not_found, d, [])
decide_found t actor now decision (some p) d = decide_loaded t actor now decision p d

unfoldable pub decide : Transactions → String → ℕ → ApprovalDecision → Desk → Decided
unfolding decide_loaded
decide t actor now decision d = decide_found t actor now decision d.proposal d
