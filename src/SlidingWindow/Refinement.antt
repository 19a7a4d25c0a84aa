-- ===== src/SlidingWindow/Refinement.antt =====
-- The store against the reference: dropping old times, empty keys and, by the sweep, stale keys, does
-- not change an answer.
use astroid_api.Common.{
  ℕ, ◌+◌, ◌≤◌, String, ◌≡◌, refl, sym, ap, ◌∙◌, subst, inl, inr, Bool, true, false, not, List, [],
  ◌∷◌, ◌++◌, arith, str_eq, eq_iff, ltb, if◌then◌else◌, Bool-cases, if_both, or_else, length, keep,
  eq_refl, lookup, IsMap, lookup-remove, lookup-put, remove-IsMap, put-IsMap, keep-IsMap,
  keep-append, keep-keep,
}
use astroid_api.SlidingWindow.{
  SlidingWindowHit, Store, new_store, is_recent, aged_out, sweep, timestamps_of, admit,
  store_timestamps, reset_time, hit,
}
use astroid_api.SlidingWindow.Ageing.{
  Rising, Rising-later, keep-Rising, append-Rising, aged_out-Stale, Stale-keep, timestamps_kept,
}
use astroid_api.SlidingWindow.Reference.{
  History, extend, reference_hit, Request, answers, reference_answers, InOrder,
}

-- The store at time `m`, seen through the window at any later time, is the history.
record Agrees (window_ms m : ℕ) (s : Store) (h : History) : Type 0 where
  is_map : IsMap s.log
  rising : (k : String) → Rising m (timestamps_of s k)
  same :
      (k : String) (n : ℕ)
      → m ≤ n
      → keep (is_recent window_ms n) (timestamps_of s k) ≡ keep (is_recent window_ms n) (h k)

module _ (window_ms now : ℕ) where
  abbrev stays : List ℕ → Bool
  stays ts = not (aged_out window_ms now ts)

  -- What the sweep leaves of the timestamps of one key.
  stays_recent :
      (m n : ℕ) (ts : List ℕ)
      → now ≤ n
      → Rising m ts
      → keep (is_recent window_ms n) (if stays ts then ts else []) ≡ keep (is_recent window_ms n) ts
  stays_recent m n ts le r = elim (Bool-cases (aged_out window_ms now ts)) [
    | inl e ↦ rw e (sym (Stale-keep window_ms now n ts le (aged_out-Stale window_ms now m ts r e)))
    | inr e ↦ rw e refl
  ]

  sweep-Agrees :
      (m : ℕ) (s : Store) (h : History)
      → m ≤ now
      → Agrees window_ms m s h
      → Agrees window_ms now (sweep window_ms now s) h
  unfolding sweep aged_out
  sweep-Agrees m s h le a =
      let later : (k : String) → Rising now (timestamps_of s k) =
        λ k. Rising-later m now (timestamps_of s k) le (a.rising k) in
      elim (Bool-cases (ltb now (s.last_sweep + window_ms))) [
        | inl e ↦ rw e (record {
          is_map = a.is_map;
          rising = later;
          same = λ k n q. a.same k n (omega (arith, le, q));
        })
        | inr e ↦ rw e (record {
          is_map = keep-IsMap (λ e. stays e.1) s.log a.is_map;
          rising = λ k.
              subst (Rising now) (sym (timestamps_kept stays s.log k a.is_map refl))
                (if_both (Rising now) (stays (timestamps_of s k)) _ _ (later k) tt);
          same = λ k n q.
              ap (keep (is_recent window_ms n)) (timestamps_kept stays s.log k a.is_map refl)
              ∙ stays_recent m n (timestamps_of s k) q (a.rising k)
              ∙ a.same k n (omega (arith, le, q));
        })
      ]

  stored :
      (log : List (String × List ℕ)) (key k : String) (ts : List ℕ)
      → or_else (lookup (store_timestamps log key ts) k) []
        ≡ (if str_eq key k then ts else or_else (lookup log k) [])
  unfolding store_timestamps
  stored log key k [] = ap (λ o. or_else o []) (lookup-remove log key k) ∙ ground arith
  stored log key k (t ∷ ts) = ap (λ o. or_else o []) (lookup-put log key k (t ∷ ts)) ∙ ground arith

  store_timestamps-IsMap :
      (log : List (String × List ℕ)) (key : String) (ts : List ℕ)
      → IsMap log
      → IsMap (store_timestamps log key ts)
  unfolding store_timestamps
  store_timestamps-IsMap log key [] h = remove-IsMap log key h
  store_timestamps-IsMap log key (t ∷ ts) h = put-IsMap log key (t ∷ ts) h

  -- The timestamps after a hit, admitted or not.
  abbrev grown : Bool → List ℕ → List ℕ
  grown true ts = ts ++ now ∷ []
  grown false ts = ts

  abbrev recent : List ℕ → List ℕ
  recent ts = keep (is_recent window_ms now) ts

  grown-Rising : (b : Bool) (ts : List ℕ) → Rising now ts → Rising now (grown b (recent ts))
  grown-Rising true ts r = append-Rising now (recent ts) (keep-Rising _ now ts r)
  grown-Rising false ts r = keep-Rising _ now ts r

  recent_later :
      (n : ℕ) (ts : List ℕ)
      → now ≤ n
      → keep (is_recent window_ms n) (recent ts) ≡ keep (is_recent window_ms n) ts
  recent_later n ts le = keep-keep _ _ (λ x e. ground (arith, e, le)) ts

  grown_same :
      (b : Bool) (key : String) (s : Store) (h : History) (n : ℕ)
      → now ≤ n
      → Agrees window_ms now s h
      → keep (is_recent window_ms n) (grown b (recent (timestamps_of s key)))
        ≡ keep (is_recent window_ms n) (extend b key now h key)
  grown_same true key s h n le a = rw (eq_refl key) (
      keep-append _ (recent (timestamps_of s key)) (now ∷ [])
      ∙ ap (λ ts. ts ++ keep (is_recent window_ms n) (now ∷ []))
          (recent_later n (timestamps_of s key) le ∙ a.same key n le)
      ∙ sym (keep-append _ (h key) (now ∷ [])))
  grown_same false key s h n le a = recent_later n (timestamps_of s key) le ∙ a.same key n le

  extend_other :
      (b : Bool) (key k : String) (h : History) → str_eq key k ≡ false → extend b key now h k ≡ h k
  extend_other true key k h e = rw e refl
  extend_other false key k h e = refl

  stored-Agrees :
      (b : Bool) (key : String) (s : Store) (h : History)
      → Agrees window_ms now s h
      → Agrees window_ms now
          (record {
            log = store_timestamps s.log key (grown b (recent (timestamps_of s key)));
            last_sweep = s.last_sweep;
          })
          (extend b key now h)
  stored-Agrees b key s h a =
      let ts = grown b (recent (timestamps_of s key)) in
      record {
        is_map = store_timestamps-IsMap s.log key ts a.is_map;
        rising = λ k. subst (Rising now) (sym (stored s.log key k ts)) (
            if_both (Rising now) (str_eq key k) _ _
              (grown-Rising b (timestamps_of s key) (a.rising key)) (a.rising k));
        same = λ k n le.
            ap (keep (is_recent window_ms n)) (stored s.log key k ts)
            ∙ elim (Bool-cases (str_eq key k)) [
              | inl e ↦ rw e (
                  subst
                    (λ j.
                      keep (is_recent window_ms n) ts
                      ≡ keep (is_recent window_ms n) (extend b key now h j))
                    ((eq_iff key k).0 e) (grown_same b key s h n le a))
              | inr e ↦ rw e (
                  a.same k n le
                  ∙ ap (keep (is_recent window_ms n)) (sym (extend_other b key k h e)))
            ];
      }

  abbrev answer_of : ℕ → List ℕ → SlidingWindowHit
  answer_of limit ts = record {
    allowed = (admit limit now ts).0;
    count = length (admit limit now ts).1;
    reset_at = reset_time window_ms now (admit limit now ts).1;
  }

  abbrev store_of : ℕ → String → Store → Store
  store_of limit key s = record {
    log = store_timestamps s.log key (admit limit now (recent (timestamps_of s key))).1;
    last_sweep = s.last_sweep;
  }

  admitted-Agrees :
      (limit : ℕ) (key : String) (s : Store) (h : History)
      → Agrees window_ms now s h
      → Agrees window_ms now
          (store_of limit key s)
          (extend (admit limit now (recent (timestamps_of s key))).0 key now h)
  unfolding admit
  admitted-Agrees limit key s h a =
      elim (Bool-cases (ltb (length (recent (timestamps_of s key))) limit)) [
        | inl e ↦ rw e (stored-Agrees true key s h a)
        | inr e ↦ rw e (stored-Agrees false key s h a)
      ]

  hit-Agrees :
      (m : ℕ) (key : String) (limit : ℕ) (s : Store) (h : History)
      → m ≤ now
      → Agrees window_ms m s h
      → ((hit key limit window_ms now s).0 ≡ (reference_hit key limit window_ms now h).0)
        × Agrees window_ms now
            (hit key limit window_ms now s).1
            (reference_hit key limit window_ms now h).1
  unfolding hit admit
  hit-Agrees m key limit s h le a =
      let swept = sweep window_ms now s in
      let b = sweep-Agrees m s h le a in
      let e = b.same key now (omega arith) in
      (
        ap (answer_of limit) e,
        subst
            (λ ts.
              Agrees window_ms now (store_of limit key swept)
                (extend (admit limit now ts).0 key now h))
            e (admitted-Agrees limit key swept h b),
      )

module _ (window_ms : ℕ) where
  answers_agree :
      (m : ℕ) (rs : List Request) (s : Store) (h : History)
      → InOrder m rs
      → Agrees window_ms m s h
      → answers window_ms rs s ≡ reference_answers window_ms rs h
  answers_agree m [] s h o a = refl
  answers_agree m (r ∷ rs) s h (le, o) a =
      let (e, b) = hit-Agrees window_ms r.now m r.key r.limit s h le a in
      let rest =
        answers_agree r.now rs (hit r.key r.limit window_ms r.now s).1
          (reference_hit r.key r.limit window_ms r.now h).1 o b in
      rw e (ap (λ xs. (reference_hit r.key r.limit window_ms r.now h).0 ∷ xs) rest)

-- For requests in the order of time, whatever their keys and limits, the store started empty gives
-- each the same answer as the reference that forgets nothing.
pub store_refines :
    (window_ms : ℕ) (rs : List Request)
    → InOrder 0 rs
    → answers window_ms rs new_store ≡ reference_answers window_ms rs (λ k. [])
store_refines window_ms rs o =
    answers_agree window_ms 0 rs new_store (λ k. []) o
      (record { is_map = tt; rising = λ k. tt; same = λ k n le. refl })
