-- ===== src/CircuitBreaker/Tests.antt =====
-- Runs of a breaker at concrete times, and the theorems applied to them.
use astroid_api.Common.{ℕ, ◌≡◌, refl, Bool, true, false, none, some, List, [], ◌∷◌, ◌++◌, arith}
use astroid_api.CircuitBreaker.{
  closed, half_open, Options, Settings, Breaker, settings_of, fresh, fast, fallback, start,
  on_success, on_failure, call, reject, step, steps,
}
use astroid_api.CircuitBreaker.Invariant.{StaysHalfOpen}
use astroid_api.CircuitBreaker.Trips.{failures, tripped, trips_at_threshold}
use astroid_api.CircuitBreaker.Stuck.{calls, Refused, uncounted_trial_sticks}

breaker : Unit {0}
unfolding settings_of fresh steps step start on_success on_failure
breaker = tt

abbrev horizon : Options
horizon = record { failure_threshold = 3; reset_timeout_ms = 1000; half_open_max_attempts = none }

abbrev horizon_settings : Settings
horizon_settings = record {
  failure_threshold = 3;
  reset_timeout_ms = 1000;
  half_open_max_attempts = 1;
}

abbrev new_breaker : Breaker
new_breaker = record { state = closed; failure_count = 0; opened_at = none; half_open_attempts = 0 }

steps_trip : steps horizon_settings (failures (10 ∷ 20 ∷ 30 ∷ [])) new_breaker ≡ tripped 3 30
unfolding breaker
steps_trip = refl

start_fallback : (start horizon_settings true 40 (tripped 3 30)).0 ≡ fast fallback
unfolding breaker
start_fallback = refl

abbrev probing : Breaker
probing = record {
  state = half_open;
  failure_count = 3;
  opened_at = some 30;
  half_open_attempts = 0;
}

probing_stays : StaysHalfOpen horizon_settings (call false 2000 ∷ call false 2001 ∷ []) probing
unfolding breaker
probing_stays = (refl, (refl, refl))

trips_at_threshold_example :
    (steps horizon_settings (failures (10 ∷ 20 ∷ [])) new_breaker
      ≡ record new_breaker { failure_count = 2 })
    × (steps horizon_settings (failures (10 ∷ 20 ∷ []) ++ reject true 30 ∷ []) new_breaker
        ≡ tripped 3 30)
trips_at_threshold_example =
    trips_at_threshold horizon_settings (10 ∷ 20 ∷ []) 30 new_breaker refl refl

abbrev later : List (Bool × ℕ)
later = (false, 2000) ∷ (true, 3000000) ∷ []

uncounted_trial_sticks_example :
    let b = steps horizon_settings (call false 1030 ∷ reject false 1040 ∷ []) (tripped 3 30) in
    (b.state ≡ half_open)
    × (Refused horizon_settings b later × (steps horizon_settings (calls later) b ≡ b))
uncounted_trial_sticks_example =
    uncounted_trial_sticks horizon_settings 3 30 1030 1040 later refl (omega arith)
