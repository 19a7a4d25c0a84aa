-- ===== src/Budgets/Reservations.antt =====
-- What reservations, charges and allocations do to the budgets' limits.
use astroid_api.Common.{
  All, ℕ, ◌+◌, ◌≤◌, ◌<◌, String, ◌≡◌, refl, ◌⊎◌, inl, inr, some, List, [], ◌∷◌, arith, str_eq, ltb,
  if◌then◌else◌, Bool-cases, Option-cases, lookup, put, lookup-put,
}
use astroid_api.Common.Results.{ok, err}
use astroid_api.Budgets.Service.{
  Budget, Budgets, BudgetError, reserve_budget, not_found, reservation_exceeds,
}

-- No budget has spent more than its limit.
abbrev pub IsWithin : Budgets → Type 0
IsWithin m = All (λ e. e.1.spent ≤ e.1.limit_amount) m

put-IsWithin :
    (m : Budgets) (id : String) (b : Budget)
    → IsWithin m
    → b.spent ≤ b.limit_amount
    → IsWithin (put m id b)
put-IsWithin [] id b h le = (le, tt)
put-IsWithin ((k, c) ∷ m) id b (h, hs) le = elim (Bool-cases (str_eq k id)) [
  | inl e ↦ rw e (le, hs)
  | inr e ↦ rw e (h, put-IsWithin m id b hs le)
]

-- A sequence of calls of `reserveBudget`, each in its own database transaction.
pub reserve_all : Budgets → List (String × ℕ) → Budgets
unfolding reserve_budget
reserve_all m [] = m
reserve_all m ((id, amount) ∷ more) = reserve_all (reserve_budget m id amount).1 more

reserve-IsWithin :
    (m : Budgets) (id : String) (amount : ℕ) → IsWithin m → IsWithin (reserve_budget m id amount).1
unfolding reserve_budget
reserve-IsWithin m id amount h = elim (Option-cases (lookup m id)) [
  | inl e ↦ rw e h
  | inr (b, e) ↦ elim (Bool-cases (ltb b.limit_amount (b.spent + amount))) [
    | inl q ↦ rw (e, q) h
    | inr q ↦ rw (e, q) (put-IsWithin m id _ h (ground (arith, q)))
  ]
]

-- No sequence of reservations takes a budget over its limit.
pub reserve_all-IsWithin :
    (m : Budgets) (asked : List (String × ℕ)) → IsWithin m → IsWithin (reserve_all m asked)
unfolding reserve_all
reserve_all-IsWithin m [] h = h
reserve_all-IsWithin m ((id, amount) ∷ more) h =
    reserve_all-IsWithin (reserve_budget m id amount).1 more (reserve-IsWithin m id amount h)

-- A reservation is granted exactly when the row exists and the amount fits under its limit; then the row
-- has spent that much more and every other row reads as before, and a refusal changes nothing.
pub reserve_outcome :
    (m : Budgets) (id : String) (amount : ℕ)
    → ((b : Budget) × (lookup m id ≡ some b)
        × (b.spent + amount ≤ b.limit_amount)
        × (let b' : Budget = record b { spent = b.spent + amount } in
            ((reserve_budget m id amount).0 ≡ ok b')
            × ((k : String)
                → lookup (reserve_budget m id amount).1 k
                  ≡ (if str_eq id k then some b' else lookup m k))))
      ⊎ (((reserve_budget m id amount).1 ≡ m)
          × ((e : BudgetError) × ((reserve_budget m id amount).0 ≡ err e))
          × ((b : Budget) → lookup m id ≡ some b → b.limit_amount < b.spent + amount))
unfolding reserve_budget
reserve_outcome m id amount = elim (Option-cases (lookup m id)) [
  | inl e ↦ inr (rw e refl, (not_found, rw e refl), λ b k. ground (arith, e, k))
  | inr (b, e) ↦ elim (Bool-cases (ltb b.limit_amount (b.spent + amount))) [
    | inl q ↦
        inr (rw (e, q) refl, (reservation_exceeds, rw (e, q) refl), λ c k. ground (arith, e, q, k))
    | inr q ↦ inl (b, e, ground (arith, q), (rw (e, q) refl, λ k. rw (e, q) (lookup-put m id k _)))
  ]
]
