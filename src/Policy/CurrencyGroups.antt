-- ===== src/Policy/CurrencyGroups.antt =====
-- What the evaluation over several base currencies asks of an intent.
use astroid_api.Common.{
  ℕ, String, ◌≡◌, sym, ap, ◌∙◌, subst, ◌↔◌, inl, inr, true, none, some, List, [], ◌∷◌, ◌++◌, arith,
  str_eq, eq_iff, Bool-cases, Option-cases, or_else, All,
}
use astroid_api.Policy.{TransactionIntent, PolicyEvaluationResult, EvaluablePolicy, Runtime}
use astroid_api.Policy.Engine.{is_active, evaluate, is_empty}
use astroid_api.Policy.Spec.{append-eq-nil_iff}
use astroid_api.Policy.Decides.{Respects, is_empty_iff, evaluate-passed_iff}
use astroid_api.Policy.Currencies.{
  StoredPolicy, Converter, currency_of, Groups, add_to_group, group_from, prepare_intent, Collected,
  collect, evaluate_groups, nothing_collected, evaluate_against_policies, result_of,
}

-- What holds of every policy of every group, with the currency of its group.
abbrev pub AllGroups : (String → EvaluablePolicy → Type 0) → Groups → Type 0
AllGroups P [] = Unit
AllGroups P ((c, group) ∷ groups) = All (P c) group × AllGroups P groups

All-append_one :
    (P : EvaluablePolicy → Type 0) (xs : List EvaluablePolicy) (p : EvaluablePolicy)
    → All P (xs ++ p ∷ []) ↔ (All P xs × P p)
All-append_one P [] p = (λ h. (tt, h.0), λ h. (h.1, tt))
All-append_one P (x ∷ xs) p =
    let (into, back) = All-append_one P xs p in
    (λ h. ((h.0, (into h.1).0), (into h.1).1), λ h. (h.0.0, back (h.0.1, h.1)))

add_to_group-AllGroups :
    (P : String → EvaluablePolicy → Type 0) (c : String) (p : EvaluablePolicy) (groups : Groups)
    → AllGroups P (add_to_group c p groups) ↔ (P c p × AllGroups P groups)
unfolding add_to_group
add_to_group-AllGroups P c p [] = (λ h. (h.0.0, tt), λ h. ((h.0, tt), tt))
add_to_group-AllGroups P c p ((d, group) ∷ groups) =
    let ih = add_to_group-AllGroups P c p groups in
    elim (Bool-cases (str_eq d c)) [
      | inl e ↦
          let same : d ≡ c = (eq_iff d c).0 e in
          let one = All-append_one (P d) group p in
          rw e (
            λ h. let (a, b) = one.0 h.0 in (subst (λ x. P x p) same b, (a, h.1)),
            λ h. (one.1 (h.1.0, subst (λ x. P x p) (sym same) h.0), h.1.1),
          )
      | inr e ↦ rw e (λ h. let (a, b) = ih.0 h.1 in (a, (h.0, b)), λ h. (h.1.0, ih.1 (h.0, h.1.1)))
    ]

group_from-AllGroups :
    (rt : Runtime) (P : String → EvaluablePolicy → Type 0) (groups : Groups)
    (policies : List StoredPolicy)
    → AllGroups P (group_from rt groups policies)
      ↔ (All (λ s. P (currency_of rt s) s.policy) policies × AllGroups P groups)
unfolding group_from
group_from-AllGroups rt P groups [] = (λ h. (tt, h), λ h. h.1)
group_from-AllGroups rt P groups (s ∷ policies) =
    let ih = group_from-AllGroups rt P (add_to_group (currency_of rt s) s.policy groups) policies in
    let step = add_to_group-AllGroups P (currency_of rt s) s.policy groups in
    (
      λ h. let (a, b) = ih.0 h in let (c, d) = step.0 b in ((c, a), d),
      λ h. ih.1 (h.0.1, step.1 (h.0.0, h.1)),
    )

-- The intent, converted to a currency, keeps to a policy of it, if the policy is active.
abbrev pub RespectsIn :
    Runtime → Converter → ℕ → TransactionIntent → String → EvaluablePolicy → Type 0
RespectsIn rt convert now intent c p =
    (i : TransactionIntent)
    → prepare_intent convert intent c ≡ some i
    → is_active i p ≡ true
    → Respects rt i (or_else i.at now) p

All-each :
    {P Q : EvaluablePolicy → Type 0} (xs : List EvaluablePolicy)
    → ((p : EvaluablePolicy) → P p → Q p)
    → All P xs
    → All Q xs
All-each [] f h = tt
All-each (x ∷ xs) f h = (f x h.0, All-each xs f h.1)

some-inj : {i j : TransactionIntent} → some i ≡ some j → i ≡ j
some-inj {i} {j} h = ap (λ o. elim o as (λ x. TransactionIntent) [ none ↦ i | some k ↦ k ]) h

module _ (rt : Runtime) (convert : Converter) (now : ℕ) (intent : TransactionIntent) where
  -- For a group whose conversion succeeds, the evaluation of the converted intent decides.
  group-RespectsIn :
      (currency : String) (i : TransactionIntent) (group : List EvaluablePolicy)
      → prepare_intent convert intent currency ≡ some i
      → ((evaluate rt now i group).violations ≡ [])
        ↔ All (RespectsIn rt convert now intent currency) group
  unfolding evaluate
  group-RespectsIn currency i group e =
      let passes = evaluate-passed_iff rt now i group in
      let empty = is_empty_iff (evaluate rt now i group).violations in
      (
        λ h.
            All-each group
              (λ p q j e'.
                subst (λ j. is_active j p ≡ true → Respects rt j (or_else j.at now) p)
                  (some-inj (sym e ∙ e')) q)
              (passes.0 (empty.1 h)),
        λ h. empty.0 (passes.1 (All-each group (λ p q. q i e) h)),
      )

  violations-groups :
      (so_far c : Collected) (groups : Groups)
      → evaluate_groups rt convert now intent so_far groups ≡ some c
      → (c.violations ≡ [])
        ↔ ((so_far.violations ≡ []) × AllGroups (RespectsIn rt convert now intent) groups)
  unfolding evaluate_groups
  violations-groups so_far c [] h =
      let same : so_far ≡ c = ground (arith, h) in (λ k. (rw same k, tt), λ k. rw (sym same) k.0)
  violations-groups so_far c ((currency, group) ∷ groups) h =
      elim (Option-cases (prepare_intent convert intent currency)) [
        | inl e ↦ let failed : none ≡ some c = rw e at h in absurd (ground (arith, failed))
        | inr (i, e) ↦
            let r = evaluate rt now i group in
            let h' : evaluate_groups rt convert now intent (collect so_far r) groups ≡ some c =
              rw e at h in
            let ih = violations-groups (collect so_far r) c groups h' in
            let one = group-RespectsIn currency i group e in
            let split = append-eq-nil_iff so_far.violations r.violations in
            (
              λ k. let (a, b) = ih.0 k in let (x, y) = split.0 a in (x, (one.0 y, b)),
              λ k. ih.1 (split.1 (k.0, one.1 k.1.0), k.1.1),
            )
      ]

-- What holds of the currency of every group.
abbrev AllCurrencies : (String → Type 0) → Groups → Type 0
AllCurrencies Q [] = Unit
AllCurrencies Q ((c, group) ∷ groups) = Q c × AllCurrencies Q groups

-- Every price that the currency needs is there.
abbrev pub IsPriced : Converter → TransactionIntent → String → Type 0
IsPriced convert intent currency =
    (i : TransactionIntent) × (prepare_intent convert intent currency ≡ some i)

-- An evaluation that returns had the answer that the theorem above describes.
pub passed-RespectsIn :
    (rt : Runtime) (convert : Converter) (now : ℕ) (intent : TransactionIntent)
    (policies : List StoredPolicy) (r : PolicyEvaluationResult)
    → evaluate_against_policies rt convert now intent policies ≡ some r
    → r.passed ≡ true
    → All (λ s. RespectsIn rt convert now intent (currency_of rt s) s.policy) policies
unfolding evaluate_against_policies
passed-RespectsIn rt convert now intent policies r h p =
    let groups = group_from rt [] policies in
    elim (Option-cases (evaluate_groups rt convert now intent nothing_collected groups)) [
      | inl e ↦ let failed : none ≡ some r = rw e at h in absurd (ground (arith, failed))
      | inr (c, e) ↦
          let done : some (result_of policies c) ≡ some r = rw e at h in
          let passes : is_empty c.violations ≡ true = ground (arith, done, p) in
          let clean = violations-groups rt convert now intent nothing_collected c groups e in
          let each = group_from-AllGroups rt (RespectsIn rt convert now intent) [] policies in
          (each.0 (clean.0 ((is_empty_iff c.violations).0 passes)).1).0
    ]
