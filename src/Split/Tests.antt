-- ===== src/Split/Tests.antt =====
-- Splits at concrete streams, and the theorems applied to them.
use astroid_api.Common.{◌*◌, ◌%◌, ◌≤◌, ◌≡◌, refl, List, [], ◌∷◌, arith, sum}
use astroid_api.Common.Results.{ok, err}
use astroid_api.Split.{
  Share, Allocation, units, int, calculate, checked, checked_points, provisional, by_remainder,
  insert, comes_before, bump, distribute, allocate, bad_sum,
}
use astroid_api.Split.Conservation.{amounts, calculate-sum}
use astroid_api.Split.Remainders.{calculate_fair}

split : Unit {0}
unfolding calculate checked checked_points provisional by_remainder insert comes_before bump
    distribute allocate
split = tt

abbrev thirds : List Share
thirds =
    record { recipient = "a"; basis_points = int 3333 }
    ∷ record { recipient = "b"; basis_points = int 3333 }
    ∷ record { recipient = "c"; basis_points = int 3334 }
    ∷ []

abbrev paid : List Allocation
paid =
    record { recipient = "a"; basis_points = 3333; amount_units = 33 }
    ∷ record { recipient = "b"; basis_points = 3333; amount_units = 33 }
    ∷ record { recipient = "c"; basis_points = 3334; amount_units = 34 }
    ∷ []

calculate-thirds : calculate (units 100) thirds ≡ ok paid
unfolding split
calculate-thirds = refl

split_short :
    calculate (units 5) (record { recipient = "a"; basis_points = int 9 } ∷ []) ≡ err (bad_sum 9)
unfolding split
split_short = refl

calculate-sum_example : sum (amounts paid) ≡ 100
calculate-sum_example = calculate-sum 100 thirds calculate-thirds

calculate_fair_example : 100 * 3333 % 10000 ≤ 100 * 3334 % 10000
calculate_fair_example =
    calculate_fair 100 thirds 2 0 calculate-thirds refl refl (omega arith) (omega arith)
