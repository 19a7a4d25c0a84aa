-- ===== src/SlidingWindow/Ageing.antt =====
-- Which timestamps the store may forget: stale ones, which no later window holds.
use astroid_api.Common.{
  ℕ, ◌+◌, ◌≤◌, String, ◌≡◌, refl, ap, ◌∙◌, inl, inr, Bool, true, false, none, some, List, [], ◌∷◌,
  ◌++◌, arith, if◌then◌else◌, leb→le, Bool-cases, or_else, All, All-append, keep, lookup, IsMap,
  lookup-keep, All-filter, filtered,
}
use astroid_api.SlidingWindow.{is_recent, aged_out}

-- Ascending times up to `m`.
abbrev pub Rising : ℕ → List ℕ → Type 0
Rising m [] = Unit
Rising m (t ∷ ts) = All (λ u. t ≤ u) ts × (t ≤ m) × Rising m ts

pub Rising-later : (m n : ℕ) (ts : List ℕ) → m ≤ n → Rising m ts → Rising n ts
Rising-later m n [] le h = tt
Rising-later m n (t ∷ ts) le (a, b, h) = (a, omega (arith, b, le), Rising-later m n ts le h)

pub keep-Rising : (p : ℕ → Bool) (m : ℕ) (ts : List ℕ) → Rising m ts → Rising m (keep p ts)
keep-Rising p m [] h = tt
keep-Rising p m (t ∷ ts) (a, b, h) = elim (Bool-cases (p t)) [
  | inl e ↦ rw e (All-filter (λ u. t ≤ u) p ts a, b, keep-Rising p m ts h)
  | inr e ↦ rw e (keep-Rising p m ts h)
]

pub append-Rising : (m : ℕ) (ts : List ℕ) → Rising m ts → Rising m (ts ++ m ∷ [])
append-Rising m [] h = (tt, omega arith, tt)
append-Rising m (t ∷ ts) (a, b, h) =
    (All-append (λ u. t ≤ u) ts (m ∷ []) a (b, tt), b, append-Rising m ts h)

-- Times that have left the window.
abbrev pub Stale : ℕ → ℕ → List ℕ → Type 0
Stale window_ms now ts = All (λ t. t + window_ms ≤ now) ts

pub aged_out-Stale :
    (window_ms now m : ℕ) (ts : List ℕ)
    → Rising m ts
    → aged_out window_ms now ts ≡ true
    → Stale window_ms now ts
unfolding aged_out
aged_out-Stale window_ms now m [] r h = tt
aged_out-Stale window_ms now m (t ∷ []) r h = (leb→le _ _ h, tt)
aged_out-Stale window_ms now m (t ∷ u ∷ ts) ((le, a), b, r) h =
    let (s, ss) = aged_out-Stale window_ms now m (u ∷ ts) r h in (omega (arith, le, s), (s, ss))

pub Stale-keep :
    (window_ms now n : ℕ) (ts : List ℕ)
    → now ≤ n
    → Stale window_ms now ts
    → keep (is_recent window_ms n) ts ≡ []
Stale-keep window_ms now n [] le h = refl
Stale-keep window_ms now n (t ∷ ts) le (s, ss) =
    let e : is_recent window_ms n t ≡ false = ground (arith, s, le) in
    rw e (Stale-keep window_ms now n ts le ss)

pub timestamps_kept :
    (p : List ℕ → Bool) (log : List (String × List ℕ)) (k : String)
    → IsMap log
    → p [] ≡ true
    → or_else (lookup (keep (λ e. p e.1) log) k) []
      ≡ (if p (or_else (lookup log k) []) then or_else (lookup log k) [] else [])
timestamps_kept p log k m h =
    let q : or_else (filtered p (lookup log k)) []
        ≡ (if p (or_else (lookup log k) []) then or_else (lookup log k) [] else []) =
      elim (lookup log k)
        as (λ o. or_else (filtered p o) [] ≡ (if p (or_else o []) then or_else o [] else [])) [
          | none ↦ rw h refl
          | some ts ↦ ground arith
        ] in
    ap (λ o. or_else o []) (lookup-keep p log k m) ∙ q
