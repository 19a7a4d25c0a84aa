-- ===== src/CircuitBreaker/Trips.antt =====
-- When a breaker opens, how long it refuses calls, and how a trial call ends.
use astroid_api.Common.{
  ℕ, ◌+◌, ◌-◌, ◌≤◌, ◌<◌, ◌≡◌, ◌∙◌, true, false, some, List, [], ◌∷◌, ◌++◌, map, arith, ltb,
  if◌then◌else◌, length,
}
use astroid_api.CircuitBreaker.{
  closed, opened, half_open, Settings, Breaker, fresh, run, fast, circuit_open, start, on_success,
  on_failure, Event, call, resolve, reject, step, steps, entered,
}

abbrev pub failures : List ℕ → List Event
failures times = map (reject true) times

-- A breaker that tripped at `t`.
abbrev pub tripped : ℕ → ℕ → Breaker
tripped count t = record {
  state = opened;
  failure_count = count;
  opened_at = some t;
  half_open_attempts = 0;
}

one_failure :
    (c : Settings) (now : ℕ) (b : Breaker)
    → b.state ≡ closed
    → b.failure_count + 1 < c.failure_threshold
    → step c (reject true now) b ≡ record b { failure_count = b.failure_count + 1 }
unfolding step on_failure
one_failure c now b h k = ground arith

last_failure :
    (c : Settings) (now : ℕ) (b : Breaker)
    → b.state ≡ closed
    → b.failure_count + 1 ≡ c.failure_threshold
    → step c (reject true now) b ≡ tripped c.failure_threshold now
unfolding step on_failure
last_failure c now b h k = ground arith

-- A closed breaker opens at exactly the failure that makes the count reach the threshold, however
-- many consecutive failures came before: one failure fewer leaves it closed with all of them
-- counted.
pub trips_at_threshold :
    (c : Settings) (times : List ℕ) (t : ℕ) (b : Breaker)
    → b.state ≡ closed
    → b.failure_count + length times + 1 ≡ c.failure_threshold
    → (steps c (failures times) b ≡ record b { failure_count = b.failure_count + length times })
      × (steps c (failures times ++ reject true t ∷ []) b ≡ tripped c.failure_threshold t)
unfolding steps
trips_at_threshold c [] t b h k = (ground arith, last_failure c t b h (omega arith))
trips_at_threshold c (now ∷ times) t b h k =
    let b' = record b { failure_count = b.failure_count + 1 } in
    let e = one_failure c now b h (omega arith) in
    let (ih, ih') = trips_at_threshold c times t b' h (omega arith) in
    (rw (steps, e) (ih ∙ ground arith), rw (steps, e) ih')

-- A tripped breaker refuses every call until its reset timeout has passed, saying how long is left
-- and staying as it is; from then on, when trials are allowed, the first call is run as a trial.
pub tripped_window :
    (c : Settings) (count t now : ℕ)
    → 0 < c.half_open_max_attempts
    → start c false now (tripped count t) ≡ (
        if ltb now (t + c.reset_timeout_ms)
        then (fast (circuit_open (t + c.reset_timeout_ms - now)), tripped count t, [])
        else (
          run,
          record {
            state = half_open;
            failure_count = count;
            opened_at = some t;
            half_open_attempts = 1;
          },
          entered half_open now count ∷ [],
        ))
unfolding start
tripped_window c count t now h = ground arith

-- A trial call that succeeds after the timeout restores a new breaker; one that fails with a
-- counted error trips the breaker again from the moment of the failure.
pub trial_outcome :
    (c : Settings) (count t now later : ℕ)
    → 0 < c.half_open_max_attempts
    → t + c.reset_timeout_ms ≤ now
    → (steps c (call false now ∷ resolve later ∷ []) (tripped count t) ≡ fresh)
      × (steps c (call false now ∷ reject true later ∷ []) (tripped count t)
          ≡ tripped (count + 1) later)
unfolding steps step start on_success on_failure fresh
trial_outcome c count t now later h k = (ground arith, ground arith)
