-- ===== src/CircuitBreaker.antt =====
-- common/circuit-breaker/circuit-breaker.ts: the in-process circuit breaker of external RPC calls.
-- `execute` awaits the wrapped operation, so other calls run between its two synchronous parts: the
-- part before the `await` is `start`, the part after it is `on_success` or `on_failure`. An event
-- sequence interleaves the parts of any number of calls. Each synchronous part reads the clock once.
-- An emitted payload is kept without the breaker's constant name and without the error object.
pub mod Invariant
pub mod Trips
pub mod Stuck
pub mod Classify
mod Tests
use astroid_api.Common.{
  ℕ, ◌+◌, ◌-◌, Bool, true, false, ◌&&◌, Option, none, some, List, [], ◌∷◌, ltb, leb, if◌then◌else◌,
  or_else,
}

pub data CircuitState : Type 0 where
  closed opened half_open : CircuitState

pub record Options : Type 0 where
  pub failure_threshold : ℕ
  pub reset_timeout_ms : ℕ
  pub half_open_max_attempts : Option ℕ

-- The fields that the constructor derives from the options.
pub record Settings : Type 0 where
  pub failure_threshold : ℕ
  pub reset_timeout_ms : ℕ
  pub half_open_max_attempts : ℕ

pub record Breaker : Type 0 where
  pub state : CircuitState
  pub failure_count : ℕ
  pub opened_at : Option ℕ
  pub half_open_attempts : ℕ

-- timestamp and, where the payload has it, the failure count
pub data Emitted : Type 0 where
  entered : CircuitState → ℕ → ℕ → Emitted
  succeeded : ℕ → Emitted
  failed : ℕ → ℕ → Emitted

unfoldable pub settings_of : Options → Settings
settings_of o = record {
  failure_threshold = o.failure_threshold;
  reset_timeout_ms = o.reset_timeout_ms;
  half_open_max_attempts = or_else o.half_open_max_attempts 1;
}

unfoldable pub fresh : Breaker
fresh = record { state = closed; failure_count = 0; opened_at = none; half_open_attempts = 0 }

unfoldable pub transition_to : CircuitState → ℕ → Breaker → Breaker × List Emitted
transition_to opened now b = (
  record b { state = opened; opened_at = some now; half_open_attempts = 0 },
  entered opened now b.failure_count ∷ [],
)
transition_to half_open now b = (
  record b { state = half_open; half_open_attempts = 0 },
  entered half_open now b.failure_count ∷ [],
)
transition_to closed now b = (
  record b { state = closed; failure_count = 0; opened_at = none; half_open_attempts = 0 },
  entered closed now 0 ∷ [],
)

-- What a call that is not let through gets: the caller's fallback, or a CircuitOpenException.
pub data FailFast : Type 0 where
  fallback : FailFast
  circuit_open : (retry_after_ms : ℕ) → FailFast

-- `Math.max(reset - (now - openedAt), 0)`
unfoldable pub handle_fail_fast : Settings → Bool → ℕ → Breaker → FailFast
handle_fail_fast c true now b = fallback
handle_fail_fast c false now b =
    circuit_open
      (elim b.opened_at [ none ↦ c.reset_timeout_ms | some t ↦ t + c.reset_timeout_ms - now ])

pub data Start : Type 0 where
  run : Start
  fast : FailFast → Start

-- `elapsed < resetTimeoutMs`, where `elapsed` is `now - openedAt` or `resetTimeoutMs`
unfoldable pub is_waiting : Settings → ℕ → Option ℕ → Bool
is_waiting c now none = false
is_waiting c now (some t) = ltb now (t + c.reset_timeout_ms)

-- the second test of `execute`: in HALF_OPEN a trial call is counted, or refused
unfoldable pub try_half_open : Settings → Bool → ℕ → Breaker → Start × Breaker
unfolding handle_fail_fast
try_half_open c fb now b =
    if leb c.half_open_max_attempts b.half_open_attempts
    then (fast (handle_fail_fast c fb now b), b)
    else (run, record b { half_open_attempts = b.half_open_attempts + 1 })

-- `execute`, up to the call of the operation
unfoldable pub start_in :
    CircuitState → Settings → Bool → ℕ → Breaker → Start × Breaker × List Emitted
unfolding try_half_open handle_fail_fast is_waiting transition_to
start_in closed c fb now b = (run, b, [])
start_in half_open c fb now b = let (s, b') = try_half_open c fb now b in (s, b', [])
start_in opened c fb now b =
    if is_waiting c now b.opened_at
    then (fast (handle_fail_fast c fb now b), b, [])
    else (let (b', out) = transition_to half_open now b in
        let (s, b'') = try_half_open c fb now b' in (s, b'', out))

unfoldable pub start : Settings → Bool → ℕ → Breaker → Start × Breaker × List Emitted
unfolding start_in
start c fb now b = start_in b.state c fb now b

unfoldable pub is_half_open : CircuitState → Bool
is_half_open half_open = true
is_half_open _ = false

unfoldable pub is_closed : CircuitState → Bool
is_closed closed = true
is_closed _ = false

unfoldable pub on_success : ℕ → Breaker → Breaker × List Emitted
unfolding is_half_open transition_to
on_success now b =
    if is_half_open b.state
    then (let (b', out) = transition_to closed now b in (b', succeeded now ∷ out))
    else (record b { failure_count = 0 }, succeeded now ∷ [])

-- `counts` is `isFailure(error)`
unfoldable pub on_failure : Settings → Bool → ℕ → Breaker → Breaker × List Emitted
unfolding is_half_open is_closed transition_to
on_failure c false now b = (b, [])
on_failure c true now b =
    let b' = record b { failure_count = b.failure_count + 1 } in
    let seen = failed now (b.failure_count + 1) in
    if is_half_open b.state
    then (let (b'', out) = transition_to opened now b' in (b'', seen ∷ out))
    else if is_closed b.state && leb c.failure_threshold (b.failure_count + 1)
    then (let (b'', out) = transition_to opened now b' in (b'', seen ∷ out))
    else (b', seen ∷ [])

-- The synchronous parts, in the order in which the event loop runs them.
pub data Event : Type 0 where
  call : (has_fallback : Bool) (now : ℕ) → Event
  resolve : (now : ℕ) → Event
  reject : (counts : Bool) (now : ℕ) → Event

unfoldable pub step : Settings → Event → Breaker → Breaker
unfolding start on_success on_failure
step c (call fb now) b = (start c fb now b).1
step c (resolve now) b = (on_success now b).0
step c (reject counts now) b = (on_failure c counts now b).0

unfoldable pub steps : Settings → List Event → Breaker → Breaker
steps c [] b = b
steps c (e ∷ es) b = steps c es (step c e b)
