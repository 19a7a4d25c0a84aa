-- ===== src/SlidingWindow/Reference.antt =====
-- The reference: every admitted time is kept forever and the recent ones are counted; and whole runs
-- of requests on the store and on the reference.
use astroid_api.Common.{
  ℕ, ◌≤◌, String, Bool, true, false, List, [], ◌∷◌, ◌++◌, str_eq, if◌then◌else◌, length, keep,
}
use astroid_api.SlidingWindow.{SlidingWindowHit, Store, is_recent, admit, reset_time, hit}

-- The times that were admitted for each key, oldest first.
abbrev pub History : Type 0
History = String → List ℕ

abbrev pub extend : Bool → String → ℕ → History → History
extend true key now h k = if str_eq key k then h k ++ now ∷ [] else h k
extend false key now h k = h k

abbrev pub reference_hit : String → ℕ → ℕ → ℕ → History → SlidingWindowHit × History
reference_hit key limit window_ms now h =
    let (allowed, counted) = admit limit now (keep (is_recent window_ms now) (h key)) in
    (
      record {
        allowed = allowed;
        count = length counted;
        reset_at = reset_time window_ms now counted;
      },
      extend allowed key now h,
    )

pub record Request : Type 0 where
  pub key : String
  pub limit : ℕ
  pub now : ℕ

abbrev pub answers : ℕ → List Request → Store → List SlidingWindowHit
answers window_ms [] s = []
answers window_ms (r ∷ rs) s =
    let (answer, s') = hit r.key r.limit window_ms r.now s in answer ∷ answers window_ms rs s'

abbrev pub reference_answers : ℕ → List Request → History → List SlidingWindowHit
reference_answers window_ms [] h = []
reference_answers window_ms (r ∷ rs) h =
    let (answer, h') = reference_hit r.key r.limit window_ms r.now h in
    answer ∷ reference_answers window_ms rs h'

-- The clock does not go back.
abbrev pub InOrder : ℕ → List Request → Type 0
InOrder m [] = Unit
InOrder m (r ∷ rs) = (m ≤ r.now) × InOrder r.now rs
