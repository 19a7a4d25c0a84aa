-- ===== src/SlidingWindow.antt =====
-- common/throttler/sliding-window.store.ts: the per-process store of request times. A comparison
-- with `now - windowMs`, which may be below zero, is written with the sum on the other side.
pub mod Ageing
pub mod Limit
pub mod Reference
pub mod Refinement
mod Tests
use astroid_api.Common.{
  ℕ, ◌+◌, String, Bool, true, false, not, List, [], ◌∷◌, ◌++◌, ltb, leb, if◌then◌else◌, or_else,
  length, keep, lookup, remove, put,
}

pub record SlidingWindowHit : Type 0 where
  pub allowed : Bool
  pub count : ℕ
  pub reset_at : ℕ

pub record Store : Type 0 where
  pub log : List (String × List ℕ)
  pub last_sweep : ℕ

abbrev pub new_store : Store
new_store = record { log = []; last_sweep = 0 }

-- `t > now - windowMs`
abbrev pub is_recent : ℕ → ℕ → ℕ → Bool
is_recent window_ms now t = ltb now (t + window_ms)

-- `timestamps[timestamps.length - 1] <= now - windowMs`, of no timestamps false
unfoldable pub aged_out : ℕ → ℕ → List ℕ → Bool
aged_out window_ms now [] = false
aged_out window_ms now (t ∷ []) = leb (t + window_ms) now
aged_out window_ms now (t ∷ u ∷ ts) = aged_out window_ms now (u ∷ ts)

unfoldable pub sweep : ℕ → ℕ → Store → Store
unfolding aged_out
sweep window_ms now s =
    if ltb now (s.last_sweep + window_ms)
    then s
    else record { log = keep (λ e. not (aged_out window_ms now e.1)) s.log; last_sweep = now }

abbrev pub timestamps_of : Store → String → List ℕ
timestamps_of s key = or_else (lookup s.log key) []

-- The recent timestamps and, if the limit allows it, this request.
unfoldable pub admit : ℕ → ℕ → List ℕ → Bool × List ℕ
admit limit now timestamps =
    if ltb (length timestamps) limit then (true, timestamps ++ now ∷ []) else (false, timestamps)

unfoldable pub store_timestamps : List (String × List ℕ) → String → List ℕ → List (String × List ℕ)
store_timestamps log key [] = remove log key
store_timestamps log key (t ∷ ts) = put log key (t ∷ ts)

unfoldable pub reset_time : ℕ → ℕ → List ℕ → ℕ
reset_time window_ms now [] = now + window_ms
reset_time window_ms now (t ∷ ts) = t + window_ms

unfoldable pub hit : String → ℕ → ℕ → ℕ → Store → SlidingWindowHit × Store
unfolding sweep admit store_timestamps reset_time
hit key limit window_ms now s =
    let swept = sweep window_ms now s in
    let (allowed, timestamps) =
      admit limit now (keep (is_recent window_ms now) (timestamps_of swept key)) in
    (
      record {
        allowed = allowed;
        count = length timestamps;
        reset_at = reset_time window_ms now timestamps;
      },
      record { log = store_timestamps swept.log key timestamps; last_sweep = swept.last_sweep },
    )
