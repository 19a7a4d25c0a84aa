-- ===== src/CircuitBreaker/Invariant.antt =====
-- What holds of a breaker whatever calls start and settle, in whatever order.
use astroid_api.Common.{ℕ, ◌+◌, ◌≤◌, ◌<◌, ◌≡◌, Bool, true, none, List, [], ◌∷◌, arith}
use astroid_api.CircuitBreaker.{
  closed, half_open, Options, Settings, Breaker, settings_of, fresh, Start, run, fast, start,
  on_success, on_failure, Event, call, resolve, reject, step, steps,
}

pub record IsConsistent (c : Settings) (b : Breaker) : Type 0 where
  pub below_threshold : b.state ≡ closed → b.failure_count < c.failure_threshold
  pub closed_unmarked : b.state ≡ closed → b.opened_at ≡ none
  pub unmarked_closed : b.opened_at ≡ none → b.state ≡ closed
  pub trials_bounded : b.half_open_attempts ≤ c.half_open_max_attempts
  pub trials_half_open : 0 < b.half_open_attempts → b.state ≡ half_open

start-IsConsistent :
    (c : Settings) (fb : Bool) (now : ℕ) (b : Breaker)
    → IsConsistent c b
    → IsConsistent c (start c fb now b).1
unfolding start
start-IsConsistent c fb now b h = ground arith

on_success-IsConsistent :
    (c : Settings) (now : ℕ) (b : Breaker)
    → 0 < c.failure_threshold
    → IsConsistent c b
    → IsConsistent c (on_success now b).0
unfolding on_success
on_success-IsConsistent c now b p h = ground arith

on_failure-IsConsistent :
    (c : Settings) (counts : Bool) (now : ℕ) (b : Breaker)
    → IsConsistent c b
    → IsConsistent c (on_failure c counts now b).0
unfolding on_failure
on_failure-IsConsistent c counts now b h = ground arith

step-IsConsistent :
    (c : Settings) (e : Event) (b : Breaker)
    → 0 < c.failure_threshold
    → IsConsistent c b
    → IsConsistent c (step c e b)
unfolding step
step-IsConsistent c (call fb now) b p h = start-IsConsistent c fb now b h
step-IsConsistent c (resolve now) b p h = on_success-IsConsistent c now b p h
step-IsConsistent c (reject counts now) b p h = on_failure-IsConsistent c counts now b h

steps_keep :
    (c : Settings) (es : List Event) (b : Breaker)
    → 0 < c.failure_threshold
    → IsConsistent c b
    → IsConsistent c (steps c es b)
unfolding steps
steps_keep c [] b p h = h
steps_keep c (e ∷ es) b p h = steps_keep c es (step c e b) p (step-IsConsistent c e b p h)

fresh-IsConsistent : (c : Settings) → 0 < c.failure_threshold → IsConsistent c fresh
unfolding fresh
fresh-IsConsistent c p = ground arith

-- For a positive threshold, after any interleaving of calls on a new breaker: a closed breaker is
-- below the failure threshold, the opening time is recorded exactly while the breaker is not
-- closed, and trial calls are counted only in HALF_OPEN and never beyond the maximum.
pub steps-IsConsistent :
    (o : Options) (es : List Event)
    → 0 < o.failure_threshold
    → IsConsistent (settings_of o) (steps (settings_of o) es fresh)
unfolding settings_of
steps-IsConsistent o es p =
    steps_keep (settings_of o) es fresh p (fresh-IsConsistent (settings_of o) p)

one_if_run : Start → ℕ
one_if_run run = 1
one_if_run (fast f) = 0

-- How many of the calls in a sequence were let through.
abbrev pub admitted : Settings → List Event → Breaker → ℕ
unfolding one_if_run
admitted c [] b = 0
admitted c (call fb now ∷ es) b =
    one_if_run (start c fb now b).0 + admitted c es (step c (call fb now) b)
admitted c (resolve now ∷ es) b = admitted c es (step c (resolve now) b)
admitted c (reject counts now ∷ es) b = admitted c es (step c (reject counts now) b)

-- The breaker is in HALF_OPEN now, and after each event.
abbrev pub StaysHalfOpen : Settings → List Event → Breaker → Type 0
StaysHalfOpen c [] b = b.state ≡ half_open
StaysHalfOpen c (e ∷ es) b = (b.state ≡ half_open) × StaysHalfOpen c es (step c e b)

start_half_open :
    (c : Settings) (fb : Bool) (now : ℕ) (b : Breaker)
    → b.state ≡ half_open
    → b.half_open_attempts ≤ c.half_open_max_attempts
    → (one_if_run (start c fb now b).0 + b.half_open_attempts
        ≡ (start c fb now b).1.half_open_attempts)
      × ((start c fb now b).1.half_open_attempts ≤ c.half_open_max_attempts)
unfolding start one_if_run
start_half_open c fb now b h k = ground arith

settled_half_open :
    (c : Settings) (counts : Bool) (now : ℕ) (b : Breaker)
    → ((on_success now b).0.state ≡ half_open
        → (on_success now b).0.half_open_attempts ≡ b.half_open_attempts)
      × ((on_failure c counts now b).0.state ≡ half_open
          → (on_failure c counts now b).0.half_open_attempts ≡ b.half_open_attempts)
unfolding on_success on_failure
settled_half_open c counts now b = ground arith

StaysHalfOpen-here :
    (c : Settings) (es : List Event) (b : Breaker) → StaysHalfOpen c es b → b.state ≡ half_open
StaysHalfOpen-here c [] b h = h
StaysHalfOpen-here c (e ∷ es) b h = h.0

-- While the breaker stays in HALF_OPEN, the trial calls let through, together with those counted
-- before, never exceed the configured maximum.
pub half_open_trials :
    (c : Settings) (es : List Event) (b : Breaker)
    → b.half_open_attempts ≤ c.half_open_max_attempts
    → StaysHalfOpen c es b
    → admitted c es b + b.half_open_attempts ≤ c.half_open_max_attempts
unfolding one_if_run step
half_open_trials c [] b k h = omega arith
half_open_trials c (call fb now ∷ es) b k (here, h) =
    let (counted, bounded) = start_half_open c fb now b here k in
    let ih = half_open_trials c es (step c (call fb now) b) bounded h in omega arith
half_open_trials c (resolve now ∷ es) b k (here, h) =
    let still = StaysHalfOpen-here c es (step c (resolve now) b) h in
    let same = (settled_half_open c true now b).0 still in
    let ih = half_open_trials c es (step c (resolve now) b) (omega arith) h in omega arith
half_open_trials c (reject counts now ∷ es) b k (here, h) =
    let still = StaysHalfOpen-here c es (step c (reject counts now) b) h in
    let same = (settled_half_open c counts now b).1 still in
    let ih = half_open_trials c es (step c (reject counts now) b) (omega arith) h in omega arith
