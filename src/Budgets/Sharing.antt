-- ===== src/Budgets/Sharing.antt =====
-- What allocations and charges do to the rows, alone and overlapping.
use astroid_api.Common.{
  ℕ, ◌+◌, ◌≤◌, ◌<◌, String, ◌≡◌, refl, sym, ap, ◌∙◌, ◌⊎◌, inl, inr, false, Option, none, some, [],
  arith, str_eq, ltb, if◌then◌else◌, Bool-cases, eq_refl, lookup, put, lookup-put,
}
use astroid_api.Common.Results.{ok, err}
use astroid_api.Budgets.Service.{
  parent_of, allocation_exceeds, write, Budget, Budgets, BudgetError, remaining, visible,
  find_by_id, assert_within_budget, consume, allocate, begin_allocate, finish_allocate,
  budget_allocated,
}

-- A row that the service finds, as the database has it.
visible-some : (o : Option Budget) (b : Budget) → visible o ≡ some b → o ≡ some b
visible-some none b h = h
visible-some (some c) b h = elim (Bool-cases c.deleted) [
  | inl e ↦ absurd (ground (arith, e, h))
  | inr e ↦ sym (rw e refl) ∙ h
]

-- `consume` adds exactly the amount, whatever the limit, and touches no other row; it warns when the
-- spend reaches four fifths of the limit.
pub consume_adds :
    (m : Budgets) (id : String) (b : Budget) (amount : ℕ)
    → lookup m id ≡ some b
    → (let b' : Budget = record b { spent = b.spent + amount } in
        ((consume m id amount).0 ≡ ok b')
        × ((k : String)
            → lookup (consume m id amount).1 k ≡ (if str_eq id k then some b' else lookup m k)))
unfolding consume
consume_adds m id b amount e = (rw e refl, λ k. rw e (lookup-put m id k _))

-- Two calls that overlap between the check of a payment and its charge: each passes the check alone, and
-- both are charged, so that the budget's spend grows by both amounts whatever its limit.
pub checks_overlap :
    (m : Budgets) (id : String) (b : Budget) (x y : ℕ)
    → find_by_id m id ≡ some b
    → b.spent + x ≤ b.limit_amount
    → b.spent + y ≤ b.limit_amount
    → ((assert_within_budget m id x).0 ≡ ok b)
      × ((assert_within_budget m id y).0 ≡ ok b)
      × (lookup (consume (consume m id x).1 id y).1 id
          ≡ some (record b { spent = b.spent + x + y }))
unfolding assert_within_budget
checks_overlap m id b x y h hx hy =
    let stored = visible-some (lookup m id) b h in
    let once : lookup (consume m id x).1 id ≡ some (record b { spent = b.spent + x }) =
      (consume_adds m id b x stored).1 id ∙ rw (eq_refl id) refl in
    let passes : (z : ℕ) → b.spent + z ≤ b.limit_amount → ltb b.limit_amount (b.spent + z) ≡ false =
      λ z le. ground (arith, le) in
    (
      rw (h, passes x hx) refl,
      rw (h, passes y hy) refl,
      (consume_adds (consume m id x).1 id (record b { spent = b.spent + x }) y once).1 id
          ∙ rw (eq_refl id) refl,
    )

-- `allocate` of a child that is found, with a parent that is found.
allocate-found :
    (m : Budgets) (child_id parent_id : String) (child parent : Budget) (amount : ℕ)
    → find_by_id m child_id ≡ some child
    → child.parent_budget_id ≡ some parent_id
    → find_by_id m parent_id ≡ some parent
    → allocate m child_id amount ≡ (
        if ltb (remaining parent) amount
        then (err (allocation_exceeds (remaining parent) amount), m, [])
        else write m child_id
            (record child { limit_amount = child.limit_amount + amount })
            (budget_allocated child_id parent_id amount))
unfolding allocate begin_allocate finish_allocate
allocate-found m child_id parent_id child parent amount hc hp h =
    let stored = visible-some (lookup m child_id) child hc in
    let begun : begin_allocate m child_id ≡ ok (child, parent_id) =
      rw hc (ap (parent_of m child) hp ∙ rw h refl) in
    rw (begun, h, stored) refl

-- An allocation to a child is granted exactly when the amount fits in what the parent has not spent; it
-- raises the child's limit by the amount and leaves every other row, the parent's too, as it was,
-- so that what the parent has given to its children before does not count.
pub allocation_keeps_parent :
    (m : Budgets) (child_id parent_id : String) (child parent : Budget) (amount : ℕ)
    → find_by_id m child_id ≡ some child
    → child.parent_budget_id ≡ some parent_id
    → find_by_id m parent_id ≡ some parent
    → (((amount ≤ remaining parent)
          × ((allocate m child_id amount).0
              ≡ ok (record child { limit_amount = child.limit_amount + amount })))
        ⊎ ((remaining parent < amount)
            × ((e : BudgetError) × ((allocate m child_id amount).0 ≡ err e))
            × ((allocate m child_id amount).1 ≡ m)))
      × ((k : String)
          → str_eq child_id k ≡ false
          → lookup (allocate m child_id amount).1 k ≡ lookup m k)
allocation_keeps_parent m child_id parent_id child parent amount hc hp h =
    let done = allocate-found m child_id parent_id child parent amount hc hp h in
    elim (Bool-cases (ltb (remaining parent) amount)) [
      | inl e ↦ rw (done, e) (inr (ground (arith, e), (_, refl), refl), λ k d. refl)
      | inr e ↦
          rw (done, e) (inl (ground (arith, e), refl), λ k d. lookup-put m child_id k _ ∙ rw d refl)
    ]

finish_allocate-found :
    (m : Budgets) (child_id parent_id : String) (child now parent : Budget) (amount : ℕ)
    → lookup m child_id ≡ some now
    → find_by_id m parent_id ≡ some parent
    → amount ≤ remaining parent
    → finish_allocate m child_id child parent_id amount
      ≡ write m child_id
          (record now { limit_amount = child.limit_amount + amount })
          (budget_allocated child_id parent_id amount)
unfolding finish_allocate
finish_allocate-found m child_id parent_id child now parent amount hn hp le =
    let fits : ltb (remaining parent) amount ≡ false = ground (arith, le) in rw (hp, fits, hn) refl

-- Two allocations to one child that have both read it before either holds the parent's lock: both are
-- granted, and the child's limit grows by the second amount only.
allocations_overlap :
    (m : Budgets) (child_id parent_id : String) (child parent : Budget) (x y : ℕ)
    → find_by_id m child_id ≡ some child
    → child.parent_budget_id ≡ some parent_id
    → find_by_id m parent_id ≡ some parent
    → str_eq child_id parent_id ≡ false
    → x ≤ remaining parent
    → y ≤ remaining parent
    → (begin_allocate m child_id ≡ ok (child, parent_id))
      × (let first = finish_allocate m child_id child parent_id x in
          let second = finish_allocate first.1 child_id child parent_id y in
          (first.0 ≡ ok (record child { limit_amount = child.limit_amount + x }))
          × (second.0 ≡ ok (record child { limit_amount = child.limit_amount + y }))
          × (lookup second.1 child_id
              ≡ some (record child { limit_amount = child.limit_amount + y })))
unfolding begin_allocate
allocations_overlap m child_id parent_id child parent x y hc hp h apart hx hy =
    let stored = visible-some (lookup m child_id) child hc in
    let raised : ℕ → Budget = λ z. record child { limit_amount = child.limit_amount + z } in
    let first = finish_allocate-found m child_id parent_id child child parent x stored h hx in
    let m' : Budgets = put m child_id (raised x) in
    let now : lookup m' child_id ≡ some (raised x) =
      lookup-put m child_id child_id (raised x) ∙ rw (eq_refl child_id) refl in
    let same_parent : find_by_id m' parent_id ≡ some parent =
      ap visible (lookup-put m child_id parent_id (raised x) ∙ rw apart refl) ∙ h in
    let second =
      finish_allocate-found m' child_id parent_id child (raised x) parent y now same_parent hy in
    (
      rw hc (ap (parent_of m child) hp ∙ rw h refl),
      (
        ap (λ o. o.0) first,
        ap (λ o. (finish_allocate o.1 child_id child parent_id y).0) first ∙ ap (λ o. o.0) second,
        ap (λ o. lookup (finish_allocate o.1 child_id child parent_id y).1 child_id) first
            ∙ ap (λ o. lookup o.1 child_id) second
            ∙ lookup-put m' child_id child_id (raised y)
            ∙ rw (eq_refl child_id) refl,
      ),
    )
