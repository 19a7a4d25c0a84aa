-- ===== src/Approvals/Outcomes.antt =====
-- What a sequence of decisions on one proposal leads to.
use astroid_api.Common.{
  ℕ, suc, ◌+◌, ◌≤◌, String, ◌≡◌, refl, ◌⊎◌, inl, inr, Bool, true, false, ◌||◌, Option, none, some,
  List, [], ◌∷◌, arith,
}
use astroid_api.Approvals.{
  pending, approved, rejected, executed, ApprovalDecision, Proposal, Approval, Desk, Effect,
  execute_transaction, Transactions, is_rejection, has_voted, count_approvals, Decided,
  decide_loaded, decide,
}

-- One call of `decide`, with what the transaction service did in it.
pub record Ballot : Type 0 where
  pub actor : String
  pub now : ℕ
  pub decision : ApprovalDecision
  pub transactions : Transactions

abbrev pub cast : Ballot → Desk → Decided
cast b d = decide b.transactions b.actor b.now b.decision d

abbrev pub run : List Ballot → Desk → Desk
run [] d = d
run (b ∷ bs) d = run bs (cast b d).1

-- How often the transaction service was asked to execute.
abbrev pub executions : List Effect → ℕ
executions [] = 0
executions (execute_transaction ∷ xs) = suc (executions xs)
executions (x ∷ xs) = executions xs

abbrev pub times_executed : List Ballot → Desk → ℕ
times_executed [] d = 0
times_executed (b ∷ bs) d = executions (cast b d).2 + times_executed bs (cast b d).1

abbrev pub has_rejection : List Approval → Bool
has_rejection [] = false
has_rejection (a ∷ more) = is_rejection a.decision || has_rejection more

-- Each user voted at most once.
abbrev pub Distinct : List Approval → Type 0
Distinct [] = Unit
Distinct (a ∷ more) = (has_voted a.user_id more ≡ false) × Distinct more

-- What the votes say fits the proposal's status.
abbrev pub Fits : Proposal → List Approval → Type 0
Fits p votes =
    (p.status ≡ pending → has_rejection votes ≡ false)
    × (p.status ≡ approved
        → (p.required_approvals ≤ count_approvals votes) × (has_rejection votes ≡ false))
    × (p.status ≡ executed
        → (p.required_approvals ≤ count_approvals votes) × (has_rejection votes ≡ false))
    × (p.status ≡ rejected → has_rejection votes ≡ true)

abbrev pub FitsDesk : Option Proposal → List Approval → Type 0
FitsDesk none votes = Unit
FitsDesk (some p) votes = Fits p votes

pub record IsSound (d : Desk) : Type 0 where
  pub distinct : Distinct d.approvals
  pub fits : FitsDesk d.proposal d.approvals

decide_loaded-IsSound :
    (t : Transactions) (actor : String) (now : ℕ) (decision : ApprovalDecision) (p : Proposal)
    (votes : List Approval)
    → Distinct votes
    → Fits p votes
    → IsSound
        (decide_loaded t actor now decision p (record { proposal = some p; approvals = votes })).1
unfolding decide_loaded
decide_loaded-IsSound t actor now decision p votes d f = record {
  distinct = ground arith;
  fits = ground arith;
}

decide-IsSound :
    (t : Transactions) (actor : String) (now : ℕ) (decision : ApprovalDecision)
    (o : Option Proposal) (votes : List Approval)
    → Distinct votes
    → FitsDesk o votes
    → IsSound (decide t actor now decision (record { proposal = o; approvals = votes })).1
unfolding decide
decide-IsSound t actor now decision none votes s f = record { distinct = s; fits = f }
decide-IsSound t actor now decision (some p) votes s f =
    decide_loaded-IsSound t actor now decision p votes s f

-- Decisions taken one after the other keep the desk sound: each user has at most one vote; a pending
-- proposal has no rejection; an approved or executed one has the approvals it requires and no
-- rejection; a rejected one has a rejection.
pub run-IsSound : (bs : List Ballot) (d : Desk) → IsSound d → IsSound (run bs d)
run-IsSound [] d s = s
run-IsSound (b ∷ bs) d s = run-IsSound bs (cast b d).1 (
    decide-IsSound b.transactions b.actor b.now b.decision d.proposal d.approvals s.distinct s.fits)

abbrev IsOpen : Option Proposal → Type 0
IsOpen none = ⊥
IsOpen (some p) = p.status ≡ pending

abbrev desk : Option Proposal → List Approval → Desk
desk o votes = record { proposal = o; approvals = votes }

-- A decision asks for the execution at most once, and then leaves the proposal not pending.
execute_closes :
    (b : Ballot) (o : Option Proposal) (votes : List Approval)
    → (executions (cast b (desk o votes)).2 ≡ 0)
      ⊎ ((executions (cast b (desk o votes)).2 ≡ 1) × ¬ IsOpen (cast b (desk o votes)).1.proposal)
unfolding decide
execute_closes b none votes = inl refl
execute_closes b (some p) votes = ground arith

closed_stays :
    (b : Ballot) (o : Option Proposal) (votes : List Approval)
    → ¬ IsOpen o
    → (executions (cast b (desk o votes)).2 ≡ 0) × ¬ IsOpen (cast b (desk o votes)).1.proposal
unfolding decide
closed_stays b none votes n = (refl, n)
closed_stays b (some p) votes n = ground arith

closed_never_executes :
    (bs : List Ballot) (d : Desk) → ¬ IsOpen d.proposal → times_executed bs d ≡ 0
closed_never_executes [] d n = refl
closed_never_executes (b ∷ bs) d n =
    let (e, n') = closed_stays b d.proposal d.approvals n in
    omega (arith, e, closed_never_executes bs (cast b d).1 n')

-- Decisions taken one after the other ask for the execution of the transaction at most once, whether it
-- succeeds or not.
pub run_executes_once : (bs : List Ballot) (d : Desk) → times_executed bs d ≤ 1
run_executes_once [] d = omega arith
run_executes_once (b ∷ bs) d = elim (execute_closes b d.proposal d.approvals) [
  | inl e ↦ omega (arith, e, run_executes_once bs (cast b d).1)
  | inr (e, n) ↦ omega (arith, e, closed_never_executes bs (cast b d).1 n)
]
