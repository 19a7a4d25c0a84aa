-- ===== src/Retry/Causes.antt =====
-- Which failures `isTransientNetworkError` takes for transient, over the chain of causes.
use astroid_api.Common.{
  ℕ, zero, suc, ◌≤◌, ◌<◌, String, ◌≡◌, refl, sym, ap, ◌∙◌, ◌↔◌, ◌⊎◌, inl, inr, Bool, true, false,
  Option, none, some, List, [], ◌∷◌, arith, Bool-cases, get_elem?, false≢true,
}
use astroid_api.Retry.Transient.{
  Failure, Signs, uncaused, caused, signs, resolve_error_status, collect_error_signals, any,
  has_transient_code, has_transient_message, judge, is_transient_network_error,
}

-- The failure and its causes.
abbrev pub chain : Failure → List Signs
chain (uncaused s) = s ∷ []
chain (caused s cause) = s ∷ chain cause

-- Among the first causes, one for which a test holds.
abbrev pub Reports : (Signs → Bool) → ℕ → Failure → Type 0
Reports p depths f =
    (n : ℕ) × ((n < depths) × ((s : Signs) × ((get_elem? (chain f) n ≡ some s) × (p s ≡ true))))

any-Reports :
    (p : Signs → Bool) (depths : ℕ) (f : Failure)
    → any p (collect_error_signals depths f) ≡ true
    → Reports p depths f
unfolding collect_error_signals
any-Reports p zero f h = absurd (false≢true h)
any-Reports p (suc depths) (uncaused s) h = (0, (omega arith, (s, (refl, ground (arith, h)))))
any-Reports p (suc depths) (caused s cause) h = elim (Bool-cases (p s)) [
  | inl e ↦ (0, (omega arith, (s, (refl, e))))
  | inr e ↦
      let (n, (lt, found)) = any-Reports p depths cause (ground (arith, e, h)) in
      (suc n, (omega (arith, lt), found))
]

Reports-any :
    (p : Signs → Bool) (depths : ℕ) (f : Failure) (n : ℕ) (s : Signs)
    → n < depths
    → get_elem? (chain f) n ≡ some s
    → p s ≡ true
    → any p (collect_error_signals depths f) ≡ true
unfolding collect_error_signals
Reports-any p zero f n s lt e q = absurd (omega (arith, lt))
Reports-any p (suc depths) (uncaused t) zero s lt e q =
    let k : p t ≡ true = ap (λ o. elim o as (λ o. Bool) [ none ↦ true | some s ↦ p s ]) e ∙ q in
    rw k refl
Reports-any p (suc depths) (uncaused t) (suc n) s lt e q = absurd (ground (arith, e))
Reports-any p (suc depths) (caused t cause) zero s lt e q =
    let k : p t ≡ true = ap (λ o. elim o as (λ o. Bool) [ none ↦ true | some s ↦ p s ]) e ∙ q in
    rw k refl
Reports-any p (suc depths) (caused t cause) (suc n) s lt e q =
    let rest = Reports-any p depths cause n s (omega (arith, lt)) e q in ground (arith, rest)

judge_iff :
    (pattern : String → Bool) (o : Option ℕ) (flag : Bool) (found : List Signs)
    → (judge pattern o flag found ≡ true) ↔ (
        ((status : ℕ) × ((o ≡ some status) × ((500 ≤ status) × (status ≤ 599))))
        ⊎ ((o ≡ none)
            × ((flag ≡ false)
                × ((any has_transient_code found ≡ true)
                    ⊎ (any (has_transient_message pattern) found ≡ true)))))
judge_iff pattern (some status) flag found = (
  λ h. inl (status, (refl, (ground (arith, h), ground (arith, h)))),
  λ h. elim h [
    | inl (n, (e, (lo, hi))) ↦ ground (arith, e, lo, hi)
    | inr (e, _) ↦ absurd (ground (arith, e))
  ],
)
judge_iff pattern none true found = (
  λ h. absurd (false≢true h),
  λ h. elim h [
    | inl (n, (e, _)) ↦ absurd (ground (arith, e))
    | inr (_, (e, _)) ↦ absurd (false≢true (sym e))
  ],
)
judge_iff pattern none false found = elim (Bool-cases (any has_transient_code found)) [
  | inl e ↦ (λ h. inr (refl, (refl, inl e)), λ h. rw e refl)
  | inr e ↦ (
    λ h. inr (refl, (refl, inr (sym (rw e refl) ∙ h))),
    λ h. elim h [
      | inl (n, (q, _)) ↦ absurd (ground (arith, q))
      | inr (_, (_, inl q)) ↦ absurd (false≢true (sym e ∙ q))
      | inr (_, (_, inr q)) ↦ rw (e, q) refl
    ],
  )
]

-- A failure is transient exactly when it carries an HTTP status from 500 to 599; or carries none, is not
-- flagged `retryable: false`, and it or one of its first five causes has a transient error code or a
-- message that matches the pattern.
pub transient_iff :
    (is_transient_message : String → Bool) (f : Failure)
    → (is_transient_network_error is_transient_message f ≡ true) ↔ (
        ((status : ℕ) × ((resolve_error_status (signs f) ≡ some status)
            × ((500 ≤ status) × (status ≤ 599))))
        ⊎ ((resolve_error_status (signs f) ≡ none)
            × (((signs f).not_retryable ≡ false)
                × (Reports has_transient_code 6 f
                    ⊎ Reports (has_transient_message is_transient_message) 6 f))))
unfolding is_transient_network_error
transient_iff pattern f =
    let found = collect_error_signals 6 f in
    let seen : (p : Signs → Bool) → Reports p 6 f → any p found ≡ true =
      λ p (n, (lt, (s, (e, q)))). Reports-any p 6 f n s lt e q in
    let (into, back) =
      judge_iff pattern (resolve_error_status (signs f)) (signs f).not_retryable found in
    (
      λ h. elim (into h) [
        | inl k ↦ inl k
        | inr (e, (k, inl q)) ↦ inr (e, (k, inl (any-Reports has_transient_code 6 f q)))
        | inr (e, (k, inr q)) ↦
            inr (e, (k, inr (any-Reports (has_transient_message pattern) 6 f q)))
      ],
      λ h. back (elim h [
        | inl k ↦ inl k
        | inr (e, (k, inl q)) ↦ inr (e, (k, inl (seen has_transient_code q)))
        | inr (e, (k, inr q)) ↦ inr (e, (k, inr (seen (has_transient_message pattern) q)))
      ]),
    )
