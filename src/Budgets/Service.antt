-- ===== src/Budgets/Service.antt =====
-- modules/budgets/budget.service.ts with budget.repository.ts. The rows of one organization are a map from
-- identifiers; amounts count units of 10^-7. Each function is one call, or the part of it that runs
-- inside one lock or one database transaction.
use astroid_api.Common.{
  ℕ, ◌+◌, ◌-◌, ◌*◌, String, Bool, true, false, not, ◌&&◌, Option, none, some, List, [], ◌∷◌, str_eq,
  ltb, leb, ◌==◌, if◌then◌else◌, or_else, keep, lookup, put,
}
use astroid_api.Common.Results.{Result, ok, err, ◌>>=◌}

pub record Budget : Type 0 where
  pub name : String
  pub currency : String
  pub parent_budget_id : Option String
  pub limit_amount : ℕ
  pub spent : ℕ
  pub enabled : Bool
  pub deleted : Bool

abbrev pub Budgets : Type 0
Budgets = List (String × Budget)

pub data BudgetError : Type 0 where
  not_found not_a_child has_children reservation_exceeds : BudgetError
  allocation_exceeds : (parent_remaining requested : ℕ) → BudgetError
  budget_exceeded : (limit spent attempted : ℕ) → BudgetError
  agent_budget_exceeded : (name : String) → BudgetError

pub data Event : Type 0 where
  budget_created budget_updated budget_deleted : (id : String) → Event
  budget_allocated : (id parent_id : String) (amount : ℕ) → Event
  budget_exceeded_event : (id : String) (limit attempted : ℕ) → Event
  budget_consumed : (id : String) (amount spent : ℕ) → Event
  budget_warning : (id : String) → Event

abbrev pub remaining : Budget → ℕ
remaining b = b.limit_amount - b.spent

abbrev pub visible : Option Budget → Option Budget
visible none = none
visible (some b) = if b.deleted then none else some b

abbrev pub find_by_id : Budgets → String → Option Budget
find_by_id m id = visible (lookup m id)

abbrev pub found : Option Budget → Result BudgetError Budget
found none = err not_found
found (some b) = ok b

abbrev pub get_or_throw : Budgets → String → Result BudgetError Budget
get_or_throw m id = found (find_by_id m id)

abbrev pub is_child_of : String → Budget → Bool
is_child_of parent b =
    not b.deleted
    && elim b.parent_budget_id as (λ o. Bool) [ none ↦ false | some p ↦ str_eq p parent ]

abbrev pub find_children : Budgets → String → List (String × Budget)
find_children m parent = keep (λ e. is_child_of parent e.1) m

abbrev pub Outcome : Type 0
Outcome = Result BudgetError Budget × Budgets × List Event

-- Writes a row that is there.
abbrev pub write : Budgets → String → Budget → Event → Outcome
write m id b event = (ok b, put m id b, event ∷ [])

abbrev pub parent_exists : Budgets → Option String → Result BudgetError (Option Budget)
parent_exists m none = ok none
parent_exists m (some parent) = get_or_throw m parent >>= λ p. ok (some p)

abbrev create_checked : Budgets → String → Budget → Result BudgetError (Option Budget) → Outcome
create_checked m id b (err e) = (err e, m, [])
create_checked m id b (ok u) = write m id b (budget_created id)

-- `create`, with the identifier that the database gives the row.
unfoldable pub create :
    Budgets → String → (name currency : String) → ℕ → Bool → Option String → Outcome
create m id name currency limit enabled parent =
    create_checked m id
      (record {
        name = name;
        currency = currency;
        parent_budget_id = parent;
        limit_amount = limit;
        spent = 0;
        enabled = enabled;
        deleted = false;
      })
      (parent_exists m parent)

-- What `update` changes: each field that the input has.
pub record Changes : Type 0 where
  pub name : Option String
  pub enabled : Option Bool
  pub limit_amount : Option ℕ

abbrev pub changed : Changes → Budget → Budget
changed c b = record b {
  name = or_else c.name b.name;
  enabled = or_else c.enabled b.enabled;
  limit_amount = or_else c.limit_amount b.limit_amount;
}

abbrev update_loaded : Budgets → String → Changes → Result BudgetError Budget → Outcome
update_loaded m id c (err e) = (err e, m, [])
update_loaded m id c (ok b) = write m id (changed c b) (budget_updated id)

unfoldable pub update : Budgets → String → Changes → Outcome
update m id c = update_loaded m id c (get_or_throw m id)

-- `allocate` up to its lock: the child as it was read, and the parent's identifier.
abbrev pub parent_of : Budgets → Budget → Option String → Result BudgetError (Budget × String)
parent_of m child none = err not_a_child
parent_of m child (some parent_id) = get_or_throw m parent_id >>= λ parent. ok (child, parent_id)

unfoldable pub begin_allocate : Budgets → String → Result BudgetError (Budget × String)
begin_allocate m child_id =
    get_or_throw m child_id >>= λ child. parent_of m child child.parent_budget_id

-- The update of the child's row, with the limit that was read before the lock.
abbrev raise_limit : Budgets → String → Budget → String → ℕ → Option Budget → Outcome
raise_limit m child_id child parent_id amount none = (err not_found, m, [])
raise_limit m child_id child parent_id amount (some now) =
    write m child_id (record now { limit_amount = child.limit_amount + amount })
      (budget_allocated child_id parent_id amount)

abbrev allocate_from : Budgets → String → Budget → String → ℕ → Result BudgetError Budget → Outcome
allocate_from m child_id child parent_id amount (err e) = (err e, m, [])
allocate_from m child_id child parent_id amount (ok parent) =
    if ltb (remaining parent) amount
    then (err (allocation_exceeds (remaining parent) amount), m, [])
    else raise_limit m child_id child parent_id amount (lookup m child_id)

-- The part of `allocate` inside the lock of the parent.
unfoldable pub finish_allocate : Budgets → String → Budget → String → ℕ → Outcome
finish_allocate m child_id child parent_id amount =
    allocate_from m child_id child parent_id amount (get_or_throw m parent_id)

abbrev allocate_begun : Budgets → String → ℕ → Result BudgetError (Budget × String) → Outcome
allocate_begun m child_id amount (err e) = (err e, m, [])
allocate_begun m child_id amount (ok begun) = finish_allocate m child_id begun.0 begun.1 amount

-- A call of `allocate` that nothing overlaps.
unfoldable pub allocate : Budgets → String → ℕ → Outcome
unfolding begin_allocate finish_allocate
allocate m child_id amount = allocate_begun m child_id amount (begin_allocate m child_id)

abbrev assert_loaded :
    String → ℕ → Result BudgetError Budget → Result BudgetError Budget × List Event
assert_loaded id amount (err e) = (err e, [])
assert_loaded id amount (ok b) =
    if ltb b.limit_amount (b.spent + amount)
    then (
      err (budget_exceeded b.limit_amount b.spent amount),
      budget_exceeded_event id b.limit_amount (b.spent + amount) ∷ [],
    )
    else (ok b, [])

unfoldable pub assert_within_budget : Budgets → String → ℕ → Result BudgetError Budget × List Event
assert_within_budget m id amount = assert_loaded id amount (get_or_throw m id)

-- `reserveBudget`: the rows read with FOR UPDATE are those of the organization, deleted or not.
abbrev reserve_loaded : Budgets → String → ℕ → Option Budget → Result BudgetError Budget × Budgets
reserve_loaded m id amount none = (err not_found, m)
reserve_loaded m id amount (some b) =
    let b' : Budget = record b { spent = b.spent + amount } in
    if ltb b.limit_amount (b.spent + amount)
    then (err reservation_exceeds, m)
    else (ok b', put m id b')

unfoldable pub reserve_budget : Budgets → String → ℕ → Result BudgetError Budget × Budgets
reserve_budget m id amount = reserve_loaded m id amount (lookup m id)

-- `utilisation >= 0.8`, where a limit of zero counts as one unit of the currency.
abbrev pub divisor : ℕ → ℕ
divisor limit = if limit == 0 then 10000000 else limit

abbrev pub is_near_cap : Budget → Bool
is_near_cap b = leb (4 * divisor b.limit_amount) (5 * b.spent)

abbrev consume_loaded : Budgets → String → ℕ → Option Budget → Outcome
consume_loaded m id amount none = (err not_found, m, [])
consume_loaded m id amount (some b) =
    let b' : Budget = record b { spent = b.spent + amount } in
    let consumed = budget_consumed id amount (b.spent + amount) in
    (
      ok b',
      put m id b',
      if is_near_cap b' then consumed ∷ budget_warning id ∷ [] else consumed ∷ [],
    )

unfoldable pub consume : Budgets → String → ℕ → Outcome
consume m id amount = consume_loaded m id amount (lookup m id)

abbrev remove_loaded : Budgets → String → Result BudgetError Budget → Outcome
remove_loaded m id (err e) = (err e, m, [])
remove_loaded m id (ok b) = elim (find_children m id) as (λ children. Outcome) [
  | [] ↦ write m id (record b { deleted = true; enabled = false }) (budget_deleted id)
  | child ∷ more ↦ (err has_children, m, [])
]

-- `remove`, a soft delete.
unfoldable pub delete : Budgets → String → Outcome
delete m id = remove_loaded m id (get_or_throw m id)
