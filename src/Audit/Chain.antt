-- ===== src/Audit/Chain.antt =====
-- What the verification of a chain decides.
use astroid_api.Common.{
  ℕ, suc, String, ◌≡◌, refl, sym, ap, ◌∙◌, subst, ◌↔◌, ◌⊎◌, inl, inr, true, not, Option, none, some,
  List, [], ◌∷◌, arith, str_eq, eq_iff, if◌then◌else◌, Bool-cases, eq_refl, false≢true,
}
use astroid_api.Audit.{
  Outside, AuditLog, build_canonical_payload, input_of, same_hash, broken, check_rows,
  verify_chain_integrity,
}

pub same_hash_iff : (a b : Option String) → (same_hash a b ≡ true) ↔ (a ≡ b)
same_hash_iff none none = (λ h. refl, λ h. refl)
same_hash_iff none (some b) = (λ h. ground (arith, h), λ h. ground (arith, h))
same_hash_iff (some a) none = (λ h. ground (arith, h), λ h. ground (arith, h))
same_hash_iff (some a) (some b) =
    (λ h. ap some ((eq_iff a b).0 h), λ h. subst (λ o. same_hash (some a) o ≡ true) h (eq_refl a))

-- A row with a hash links to the hash that is expected, and its own is the one computed of it; a row
-- from before the hashes is free.
abbrev pub FollowsBy : Option String → Option String → String → Option String → Type 0
FollowsBy expected previous computed none = Unit
FollowsBy expected previous computed (some h) = (previous ≡ expected) × (h ≡ computed)

abbrev pub next : Option String → Option String → Option String
next expected none = expected
next expected (some h) = some h

check_cases {ℓ} :
    {A : Type ℓ} (hash previous expected : Option String) (computed : String)
    (after : Option String → A) (bad : A)
    → let found =
        if same_hash hash none
        then after expected
        else if not (same_hash previous expected)
        then bad
        else if not (same_hash (some computed) hash)
        then bad
        else after hash in
      (FollowsBy expected previous computed hash × (found ≡ after (next expected hash)))
      ⊎ (¬ FollowsBy expected previous computed hash × (found ≡ bad))
check_cases none previous expected computed after bad = inl (tt, refl)
check_cases (some h) previous expected computed after bad =
    elim (Bool-cases (same_hash previous expected)) [
      | inl p ↦ elim (Bool-cases (str_eq computed h)) [
        | inl q ↦
            inl (
              ((same_hash_iff previous expected).0 p, sym ((eq_iff computed h).0 q)),
              rw (p, q) refl,
            )
        | inr q ↦ inr ((λ f. false≢true (sym q ∙ (eq_iff computed h).1 (sym f.1))), rw (p, q) refl)
      ]
      | inr p ↦ inr ((λ f. false≢true (sym p ∙ (same_hash_iff previous expected).1 f.0)), rw p refl)
    ]

module _ {J : Type 0} (outside : Outside J) where
  -- The hash that belongs to a row's contents and its link.
  abbrev pub row_hash : AuditLog J → String
  row_hash r =
      outside.sha256 (build_canonical_payload outside (input_of r) r.previous_hash r.created_at)

  abbrev pub Follows : Option String → AuditLog J → Type 0
  Follows expected r = FollowsBy expected r.previous_hash (row_hash r) r.hash

  abbrev pub IsChained : Option String → List (AuditLog J) → Type 0
  IsChained expected [] = Unit
  IsChained expected (r ∷ rs) = Follows expected r × IsChained (next expected r.hash) rs

  pub check_row :
      (now i : ℕ) (expected : Option String) (r : AuditLog J) (rs : List (AuditLog J))
      → (Follows expected r
          × (check_rows outside now i expected (r ∷ rs)
              ≡ check_rows outside now (suc i) (next expected r.hash) rs))
        ⊎ (¬ Follows expected r × (check_rows outside now i expected (r ∷ rs) ≡ broken i r))
  unfolding check_rows build_canonical_payload
  check_row now i expected r rs =
      check_cases r.hash r.previous_hash expected (row_hash r)
        (λ h. check_rows outside now (suc i) h rs) (broken i r)

  check_rows_iff :
      (now i : ℕ) (expected : Option String) (rs : List (AuditLog J))
      → ((check_rows outside now i expected rs).valid ≡ true) ↔ IsChained expected rs
  unfolding check_rows
  check_rows_iff now i expected [] = (λ h. tt, λ h. refl)
  check_rows_iff now i expected (r ∷ rs) =
      let rest = check_rows_iff now (suc i) (next expected r.hash) rs in
      elim (check_row now i expected r rs) [
        | inl (f, e) ↦ (
          λ h. (f, rest.0 (sym (ap (λ x. x.valid) e) ∙ h)),
          λ h. ap (λ x. x.valid) e ∙ rest.1 h.1,
        )
        | inr (f, e) ↦
            (λ h. absurd (false≢true (sym (ap (λ x. x.valid) e) ∙ h)), λ h. absurd (f h.0))
      ]

  -- A chain is found valid exactly if every row that has a hash links to the hash of the last such row
  -- before it, the first to the archive's anchor, and has the hash of its own contents and link.
  pub valid_iff :
      (now : ℕ) (anchor : Option String) (rs : List (AuditLog J))
      → ((verify_chain_integrity outside now anchor rs).valid ≡ true) ↔ IsChained anchor rs
  unfolding verify_chain_integrity
  valid_iff now anchor rs = check_rows_iff now 0 anchor rs
