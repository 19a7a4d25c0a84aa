-- ===== src/Policy/Order.antt =====
-- The order in which the active policies are considered.
use astroid_api.Common.{
  ℕ, ◌≤◌, ◌≡◌, refl, inl, inr, List, [], ◌∷◌, map, arith, leb, leb→le, Bool-cases, All, keep,
}
use mathlib.Core.List.{Perm}
use mathlib.Core.List.Perm
use astroid_api.Policy.{TransactionIntent, EvaluablePolicy, Runtime}
use astroid_api.Policy.Engine.{is_active, insert, by_priority, active_policies, first_id, evaluate}

insert-perm : (p : EvaluablePolicy) (ps : List EvaluablePolicy) → Perm (insert p ps) (p ∷ ps)
unfolding insert
insert-perm p [] = Perm.refl (p ∷ [])
insert-perm p (q ∷ qs) =
    let ih = insert-perm p qs in
    elim (Bool-cases (leb p.priority q.priority)) [
      | inl e ↦ rw e (Perm.refl (p ∷ q ∷ qs))
      | inr e ↦ rw e (Perm.trans (Perm.cons q ih) (Perm.swap p q qs))
    ]

by_priority-perm : (ps : List EvaluablePolicy) → Perm (by_priority ps) ps
unfolding by_priority
by_priority-perm [] = Perm.refl []
by_priority-perm (p ∷ ps) =
    Perm.trans (insert-perm p (by_priority ps)) (Perm.cons p (by_priority-perm ps))

-- Ordered by priority: every policy comes before those of a larger number.
abbrev pub IsRising : List EvaluablePolicy → Type 0
IsRising [] = Unit
IsRising (p ∷ ps) = All (λ q. p.priority ≤ q.priority) ps × IsRising ps

All-raise :
    (m n : ℕ) (ps : List EvaluablePolicy)
    → m ≤ n
    → All (λ q. n ≤ q.priority) ps
    → All (λ q. m ≤ q.priority) ps
All-raise m n [] h k = tt
All-raise m n (p ∷ ps) h (a, k) = (omega arith, All-raise m n ps h k)

insert-at_least :
    (m : ℕ) (p : EvaluablePolicy) (ps : List EvaluablePolicy)
    → m ≤ p.priority
    → All (λ q. m ≤ q.priority) ps
    → All (λ q. m ≤ q.priority) (insert p ps)
unfolding insert
insert-at_least m p [] h k = (h, tt)
insert-at_least m p (q ∷ qs) h (a, k) = elim (Bool-cases (leb p.priority q.priority)) [
  | inl e ↦ rw e (h, (a, k))
  | inr e ↦ rw e (a, insert-at_least m p qs h k)
]

insert-IsRising :
    (p : EvaluablePolicy) (ps : List EvaluablePolicy) → IsRising ps → IsRising (insert p ps)
unfolding insert
insert-IsRising p [] h = (tt, tt)
insert-IsRising p (q ∷ qs) (a, k) = elim (Bool-cases (leb p.priority q.priority)) [
  | inl e ↦
      let le = leb→le p.priority q.priority e in
      rw e ((le, All-raise p.priority q.priority qs le a), (a, k))
  | inr e ↦
      let le : q.priority ≤ p.priority = ground (arith, e) in
      rw e (insert-at_least q.priority p qs le a, insert-IsRising p qs k)
]

by_priority-IsRising : (ps : List EvaluablePolicy) → IsRising (by_priority ps)
unfolding by_priority
by_priority-IsRising [] = tt
by_priority-IsRising (p ∷ ps) = insert-IsRising p (by_priority ps) (by_priority-IsRising ps)

-- The evaluated policies are exactly the enabled ones that apply to the agent, each as often as it
-- was given, in rising order of priority, and the matched policy is the first of them.
pub evaluate_order :
    (rt : Runtime) (now : ℕ) (intent : TransactionIntent) (policies : List EvaluablePolicy)
    → (qs : List EvaluablePolicy) × ((evaluate rt now intent policies).evaluated_policy_ids
        ≡ map (λ p. p.id) qs)
      × ((evaluate rt now intent policies).matched_policy_id ≡ first_id qs)
      × Perm qs (keep (is_active intent) policies)
      × IsRising qs
unfolding evaluate active_policies
evaluate_order rt now intent policies =
    let kept = keep (is_active intent) policies in
    (by_priority kept, refl, refl, by_priority-perm kept, by_priority-IsRising kept)
