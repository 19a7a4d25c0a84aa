-- ===== src/CircuitBreaker/Stuck.antt =====
-- A breaker in HALF_OPEN whose trial calls are used up and settle without deciding its state.
use astroid_api.Common.{
  ℕ, ◌+◌, ◌≤◌, ◌≡◌, refl, sym, ap, subst, Bool, false, List, [], ◌∷◌, map, arith, All,
}
use astroid_api.CircuitBreaker.{
  half_open, Settings, Breaker, fast, start, on_failure, Event, call, reject, step, steps,
  handle_fail_fast,
}
use astroid_api.CircuitBreaker.Trips.{tripped}

-- The starts of calls, each with or without a fallback.
abbrev pub calls : List (Bool × ℕ) → List Event
calls starts = map (λ s. call s.0 s.1) starts

-- Each call is answered at once and leaves the breaker as it is.
abbrev pub Refused : Settings → Breaker → List (Bool × ℕ) → Type 0
Refused c b starts =
    All (λ s. start c s.0 s.1 b ≡ (fast (handle_fail_fast c s.0 s.1 b), b, [])) starts

exhausted :
    (c : Settings) (b : Breaker) (starts : List (Bool × ℕ))
    → b.state ≡ half_open
    → c.half_open_max_attempts ≤ b.half_open_attempts
    → Refused c b starts
unfolding start handle_fail_fast
exhausted c b [] h k = tt
exhausted c b ((fallback, now) ∷ starts) h k = (ground arith, exhausted c b starts h k)

Refused-steps :
    (c : Settings) (b : Breaker) (starts : List (Bool × ℕ))
    → Refused c b starts
    → steps c (calls starts) b ≡ b
unfolding steps step
Refused-steps c b [] h = refl
Refused-steps c b ((fallback, now) ∷ starts) (h, hs) =
    let same : step c (call fallback now) b ≡ b = ap (λ r. r.1) h in
    subst (λ x. steps c (calls starts) x ≡ b) (sym same) (Refused-steps c b starts hs)

-- With one trial allowed (the default), a trial call that ends in an error which `isFailure` does
-- not count leaves the breaker in HALF_OPEN with its only trial spent: while no call that started before is
-- still to end, every later call, with a fallback or without, is answered at once at every time, and after
-- all of them the breaker is the same.
pub uncounted_trial_sticks :
    (c : Settings) (count t now later : ℕ) (starts : List (Bool × ℕ))
    → c.half_open_max_attempts ≡ 1
    → t + c.reset_timeout_ms ≤ now
    → let b = steps c (call false now ∷ reject false later ∷ []) (tripped count t) in
      (b.state ≡ half_open) × (Refused c b starts × (steps c (calls starts) b ≡ b))
unfolding steps step start on_failure
uncounted_trial_sticks c count t now later starts h k =
    let b : Breaker = steps c (call false now ∷ reject false later ∷ []) (tripped count t) in
    let stays : b.state ≡ half_open = ground arith in
    let refused = exhausted c b starts stays (ground arith) in
    (stays, (refused, Refused-steps c b starts refused))
