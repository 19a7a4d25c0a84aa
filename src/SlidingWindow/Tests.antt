-- ===== src/SlidingWindow/Tests.antt =====
-- A run of requests.
use astroid_api.Common.{ℕ, String, ◌≡◌, refl, false, some, List, [], ◌∷◌, arith, get_elem?}
use astroid_api.SlidingWindow.{new_store, hit}
use astroid_api.SlidingWindow.Reference.{Request, answers, reference_answers, InOrder}
use astroid_api.SlidingWindow.Refinement.{store_refines}
use astroid_api.SlidingWindow.Limit.{allowed_times, Bounded, window_limit}

abbrev ask : String → ℕ → Request
ask key now = record { key = key; limit = 2; now = now }

-- Two clients, a refused request, and a sweep.
abbrev requests : List Request
requests = ask "a" 10 ∷ ask "b" 20 ∷ ask "a" 30 ∷ ask "a" 40 ∷ ask "a" 120 ∷ ask "b" 250 ∷ []

fourth_refused :
    get_elem? (answers 100 requests new_store) 3
    ≡ some (record { allowed = false; count = 2; reset_at = 110 })
unfolding hit
fourth_refused = refl

requests-InOrder : InOrder 0 requests
requests-InOrder =
    (omega arith, (omega arith, (omega arith, (omega arith, (omega arith, (omega arith, tt))))))

store_refines_example : answers 100 requests new_store ≡ reference_answers 100 requests (λ k. [])
store_refines_example = store_refines 100 requests requests-InOrder

window_limit_example : Bounded 100 2 (allowed_times "a" requests (answers 100 requests new_store))
window_limit_example =
    window_limit 100 2 requests "a" requests-InOrder
      (omega arith, (omega arith, (omega arith, (omega arith, (omega arith, (omega arith, tt))))))
