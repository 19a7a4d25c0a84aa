-- ===== src/Budgets/Tests.antt =====
-- A parent budget with two children, and an agent's budget.
use astroid_api.Common.{
  ℕ, ◌≤◌, ◌<◌, String, ◌≡◌, refl, ◌⊎◌, true, false, Option, none, some, List, [], ◌∷◌, arith,
  str_eq, lookup,
}
use astroid_api.Common.Results.{ok, err}
use astroid_api.Budgets.Service.{
  Budget, Budgets, BudgetError, assert_within_budget, consume, allocate, begin_allocate,
  finish_allocate, reserve_budget,
}
use astroid_api.Budgets.Reservations.{IsWithin, reserve_all, reserve_all-IsWithin}
use astroid_api.Budgets.Sharing.{checks_overlap, allocation_keeps_parent}
use astroid_api.Budgets.Agents.{AgentTransaction, with_agent_budget_limit}
use astroid_api.Budgets.AgentLimit.{AllFit, draft_row, agent_budget_kept}

abbrev budget : Option String → ℕ → ℕ → Budget
budget parent limit spent = record {
  name = "ops";
  currency = "XLM";
  parent_budget_id = parent;
  limit_amount = limit;
  spent = spent;
  enabled = true;
  deleted = false;
}

abbrev rows : Budgets
rows =
    ("top", budget none 100 40)
    ∷ ("a", budget (some "top") 10 0)
    ∷ ("b", budget (some "top") 20 5)
    ∷ []

reads : Unit {0}
unfolding allocate begin_allocate finish_allocate consume reserve_budget
reads = tt

reserve_all-IsWithin_example : IsWithin (reserve_all rows (("a", 8) ∷ ("a", 3) ∷ ("top", 60) ∷ []))
reserve_all-IsWithin_example =
    reserve_all-IsWithin rows (("a", 8) ∷ ("a", 3) ∷ ("top", 60) ∷ [])
      (omega arith, (omega arith, (omega arith, tt)))

checks_overlap_example :
    ((assert_within_budget rows "b" 10).0 ≡ ok (budget (some "top") 20 5))
    × ((assert_within_budget rows "b" 12).0 ≡ ok (budget (some "top") 20 5))
    × (lookup (consume (consume rows "b" 10).1 "b" 12).1 "b" ≡ some (budget (some "top") 20 27))
checks_overlap_example =
    checks_overlap rows "b" (budget (some "top") 20 5) 10 12 refl (omega arith) (omega arith)

allocation_keeps_parent_example :
    (((60 ≤ 60) × ((allocate rows "a" 60).0 ≡ ok (budget (some "top") 70 0)))
      ⊎ ((60 < 60)
          × ((e : BudgetError) × ((allocate rows "a" 60).0 ≡ err e))
          × ((allocate rows "a" 60).1 ≡ rows)))
    × ((k : String) → str_eq "a" k ≡ false → lookup (allocate rows "a" 60).1 k ≡ lookup rows k)
allocation_keeps_parent_example =
    allocation_keeps_parent rows "a" "top" (budget (some "top") 10 0) (budget none 100 40) 60 refl
      refl refl

abbrev same : String → String
same s = s

abbrev in_flight : List AgentTransaction
in_flight = draft_row "XLM" 30 none ∷ []

agent_budget_kept_example :
    (let row = draft_row "XLM" 25 (some "a") in
      let result = with_agent_budget_limit same rows in_flight "XLM" 25 row in
      ((result.0 ≡ ok row)
        × (result.1 ≡ row ∷ in_flight)
        × AllFit same "XLM" rows (row ∷ in_flight))
      ⊎ (((e : BudgetError) × (result.0 ≡ err e))
          × (result.1 ≡ in_flight)
          × ¬ AllFit same "XLM" rows (row ∷ in_flight)))
agent_budget_kept_example = agent_budget_kept same rows in_flight "XLM" 25 (some "a")
