-- ===== src/SlidingWindow/Limit.antt =====
-- No trailing window ever holds more admitted requests of a key than the limit.
use mathlib.Core.List.{append_assoc, append-nil}
use astroid_api.Common.{
  ℕ, ◌+◌, ◌≤◌, ◌<◌, String, ◌≡◌, refl, sym, subst, inl, inr, Bool, true, false, ◌&&◌, List, [], ◌∷◌,
  ◌++◌, arith, str_eq, eq_iff, ltb, leb, if◌then◌else◌, ltb→lt, Bool-cases, if_both, length,
  length-append, All, keep, keep-append,
}
use astroid_api.SlidingWindow.{SlidingWindowHit, new_store, is_recent, admit}
use astroid_api.SlidingWindow.Reference.{
  History, extend, Request, answers, reference_answers, InOrder,
}
use astroid_api.SlidingWindow.Refinement.{store_refines}

-- The times of a key's requests that were allowed.
abbrev pub allowed_times : String → List Request → List SlidingWindowHit → List ℕ
allowed_times k (r ∷ rs) (a ∷ answers) =
    let rest = allowed_times k rs answers in
    if a.allowed && str_eq r.key k then r.now ∷ rest else rest
allowed_times k _ _ = []

-- The window that ends at `x`.
abbrev pub inside : ℕ → ℕ → ℕ → Bool
inside window_ms x t = leb t x && ltb x (t + window_ms)

module _ (window_ms limit : ℕ) where
  abbrev pub Bounded : List ℕ → Type 0
  Bounded ts = (x : ℕ) → length (keep (inside window_ms x) ts) ≤ limit

  fewer :
      (p q : ℕ → Bool)
      → ((t : ℕ) → p t ≡ true → q t ≡ true)
      → (ts : List ℕ) → length (keep p ts) ≤ length (keep q ts)
  fewer p q h [] = omega arith
  fewer p q h (t ∷ ts) = elim (Bool-cases (p t)) [
    | inl e ↦ rw (e, h t e) (omega (arith, fewer p q h ts))
    | inr e ↦ rw e (
        if_both (λ xs. length (keep p ts) ≤ length xs) (q t) _ _ (omega (arith, fewer p q h ts))
          (fewer p q h ts))
  ]

  append-Bounded :
      (now : ℕ) (ts : List ℕ)
      → length (keep (is_recent window_ms now) ts) < limit
      → Bounded ts
      → Bounded (ts ++ now ∷ [])
  append-Bounded now ts lt b x = rw (keep-append (inside window_ms x) ts (now ∷ [])) (
      rw (length-append (keep (inside window_ms x) ts) (keep (inside window_ms x) (now ∷ [])))
        (elim (Bool-cases (leb now x)) [
          | inl e ↦
              let few : length (keep (inside window_ms x) ts)
                  ≤ length (keep (is_recent window_ms now) ts) =
                fewer (inside window_ms x) (is_recent window_ms now) (λ t q. ground (arith, e, q))
                  ts in
              ground (arith, few, lt)
          | inr e ↦ rw e (ground (arith, b x))
        ]))

  answers-Bounded :
      (k : String) (rs : List Request) (h : History)
      → All (λ r. r.limit ≤ limit) rs
      → Bounded (h k)
      → Bounded (h k ++ allowed_times k rs (reference_answers window_ms rs h))
  unfolding admit
  answers-Bounded k [] h l b = subst Bounded (sym (append-nil (h k))) b
  answers-Bounded k (r ∷ rs) h (l, ls) b =
      elim (Bool-cases (ltb (length (keep (is_recent window_ms r.now) (h r.key))) r.limit)) [
        | inl e ↦
            let h' = extend true r.key r.now h in
            let more : Bounded (h' k)
                → Bounded (h' k ++ allowed_times k rs (reference_answers window_ms rs h')) =
              answers-Bounded k rs h' ls in
            let later = allowed_times k rs (reference_answers window_ms rs h') in
            let room = ltb→lt _ _ e in
            elim (Bool-cases (str_eq r.key k)) [
              | inl q ↦
                  let start : Bounded (h k ++ r.now ∷ []) =
                    append-Bounded r.now (h k)
                      (subst (λ j. length (keep (is_recent window_ms r.now) (h j)) < limit)
                        ((eq_iff r.key k).0 q) (omega (arith, room, l)))
                      b in
                  let here : h' k ≡ h k ++ r.now ∷ [] = rw q refl in
                  rw (e, q)
                    (rw (sym (append_assoc (h k) (r.now ∷ []) later))
                      (subst (λ ts. Bounded (ts ++ later)) here (more (rw q start))))
              | inr q ↦
                  let here : h' k ≡ h k = rw q refl in
                  rw (e, q) (subst (λ ts. Bounded (ts ++ later)) here (more (rw q b)))
            ]
        | inr e ↦ rw e (answers-Bounded k rs (extend false r.key r.now h) ls b)
      ]

-- For requests in the order of time, with limits up to a bound, every window of the given length,
-- wherever it ends, holds at most that many requests of a key that the store allowed.
pub window_limit :
    (window_ms limit : ℕ) (rs : List Request) (k : String)
    → InOrder 0 rs
    → All (λ r. r.limit ≤ limit) rs
    → Bounded window_ms limit (allowed_times k rs (answers window_ms rs new_store))
window_limit window_ms limit rs k o l =
    rw (store_refines window_ms rs o)
      (answers-Bounded window_ms limit k rs (λ k. []) l (λ x. omega arith))
