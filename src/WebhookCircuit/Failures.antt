-- ===== src/WebhookCircuit/Failures.antt =====
-- A burst of failures, recorded by any number of workers at once: the atomic calls of their
-- `recordFailure`s in any order.
use astroid_api.Common.{
  ℕ, ◌+◌, ◌≤◌, ◌≡◌, refl, ◌⊎◌, inl, inr, ◌||◌, Option, none, some, List, [], ◌∷◌, arith, Bool-cases,
}
use astroid_api.WebhookCircuit.{
  closed, opened, half_open, World, CircuitFailure, same_status, increment_failures,
  transition_to_open,
}

pub data Call : Type 0 where
  increment : CircuitFailure → ℕ → Call
  try_open : (now ends : ℕ) → Call

-- The row after a call, and how often the call opened the circuit.
abbrev pub perform : Call → World → World × ℕ
perform (increment f now) none = (none, 0)
perform (increment f now) (some r) = (some (increment_failures f now r), 0)
perform (try_open now ends) w = transition_to_open now ends w

abbrev pub after : List Call → World → World
after [] w = w
after (x ∷ xs) w = after xs (perform x w).0

abbrev pub times_opened : List Call → World → ℕ
times_opened [] w = 0
times_opened (x ∷ xs) w = (perform x w).1 + times_opened xs (perform x w).0

-- An open circuit with a given cooldown.
abbrev pub OpenUntil : Option ℕ → World → Type 0
OpenUntil ends none = ⊥
OpenUntil ends (some r) = (r.status ≡ opened) × (r.cooldown_ends_at ≡ ends)

open_stays :
    (x : Call) (ends : Option ℕ) (w : World)
    → OpenUntil ends w
    → OpenUntil ends (perform x w).0 × ((perform x w).1 ≡ 0)
unfolding transition_to_open
open_stays (increment f now) ends (some r) h = (h, refl)
open_stays (try_open now e) ends (some r) h = ground arith
open_stays x ends none h = absurd h

-- Once open, a circuit is never opened again by a burst, and its cooldown is never moved.
pub burst_keeps_cooldown :
    (xs : List Call) (ends : Option ℕ) (w : World)
    → OpenUntil ends w
    → OpenUntil ends (after xs w) × (times_opened xs w ≡ 0)
burst_keeps_cooldown [] ends w h = (h, refl)
burst_keeps_cooldown (x ∷ xs) ends w h =
    let (still, no_open) = open_stays x ends w h in
    let (later, none_later) = burst_keeps_cooldown xs ends (perform x w).0 still in
    (later, omega (arith, no_open, none_later))

opening_opens :
    (x : Call) (w : World)
    → ((perform x w).1 ≡ 0)
      ⊎ (((perform x w).1 ≡ 1) × ((ends : Option ℕ) × OpenUntil ends (perform x w).0))
unfolding transition_to_open
opening_opens (increment f now) none = inl refl
opening_opens (increment f now) (some r) = inl refl
opening_opens (try_open now ends) none = inl refl
opening_opens (try_open now ends) (some r) =
    elim (Bool-cases (same_status r.status closed || same_status r.status half_open)) [
      | inl e ↦ rw e (inr (refl, (some ends, (refl, refl))))
      | inr e ↦ rw e (inl refl)
    ]

-- A burst of failures opens the circuit at most once, whatever the order of its calls.
pub burst_opens_once : (xs : List Call) (w : World) → times_opened xs w ≤ 1
burst_opens_once [] w = omega arith
burst_opens_once (x ∷ xs) w = elim (opening_opens x w) [
  | inl e ↦ omega (arith, e, burst_opens_once xs (perform x w).0)
  | inr (e, (ends, o)) ↦ omega (arith, e, (burst_keeps_cooldown xs ends (perform x w).0 o).1)
]
