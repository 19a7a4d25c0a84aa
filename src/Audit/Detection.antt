-- ===== src/Audit/Detection.antt =====
-- Where a chain that is not intact is found broken.
use astroid_api.Common.{
  ℕ, suc, ◌+◌, String, ◌≡◌, sym, ap, ◌∙◌, subst, ◌≢◌, ◌↔◌, inl, inr, Option, some, List, [], ◌∷◌,
  ◌++◌, arith, length,
}
use astroid_api.Audit.{
  Outside, AuditLog, broken, build_canonical_payload, input_of, check_rows, verify_chain_integrity,
}
use astroid_api.Audit.Chain.{FollowsBy, next, row_hash, Follows, IsChained, check_row}

module _ {J : Type 0} (outside : Outside J) where
  -- The hash that a row after these has to link to.
  abbrev pub tip : Option String → List (AuditLog J) → Option String
  tip expected [] = expected
  tip expected (r ∷ rs) = tip (next expected r.hash) rs

  check_rows-broken :
      (now i : ℕ) (expected : Option String) (before after : List (AuditLog J)) (r : AuditLog J)
      → IsChained outside expected before
      → ¬ Follows outside (tip expected before) r
      → check_rows outside now i expected (before ++ r ∷ after) ≡ broken (i + length before) r
  check_rows-broken now i expected [] after r c f =
      elim (check_row outside now i expected r after) [
        | inl (g, e) ↦ absurd (f g)
        | inr (g, e) ↦ e ∙ ap (λ n. broken n r) (omega arith)
      ]
  check_rows-broken now i expected (b ∷ before) after r (g, c) f =
      elim (check_row outside now i expected b (before ++ r ∷ after)) [
        | inl (k, e) ↦
            e
            ∙ check_rows-broken now (suc i) (next expected b.hash) before after r c f
            ∙ ap (λ n. broken n r) (omega arith)
        | inr (k, e) ↦ absurd (k g)
      ]

  -- If the rows before are intact and a row does not link to them or does not have the hash of its
  -- contents, the chain is found broken at that row, whatever comes after it.
  pub break_found :
      (now : ℕ) (anchor : Option String) (before after : List (AuditLog J)) (r : AuditLog J)
      → IsChained outside anchor before
      → ¬ Follows outside (tip anchor before) r
      → verify_chain_integrity outside now anchor (before ++ r ∷ after) ≡ broken (length before) r
  unfolding verify_chain_integrity
  break_found now anchor before after r c f =
      check_rows-broken now 0 anchor before after r c f ∙ ap (λ n. broken n r) (omega arith)

  pub append-IsChained :
      (expected : Option String) (xs ys : List (AuditLog J))
      → IsChained outside expected (xs ++ ys)
        ↔ (IsChained outside expected xs × IsChained outside (tip expected xs) ys)
  append-IsChained expected [] ys = (λ h. (tt, h), λ h. h.1)
  append-IsChained expected (x ∷ xs) ys =
      let rest = append-IsChained (next expected x.hash) xs ys in
      (λ h. ((h.0, (rest.0 h.1).0), (rest.0 h.1).1), λ h. (h.0.0, rest.1 (h.0.1, h.1)))

  abbrev pub payload : AuditLog J → String
  payload r = build_canonical_payload outside (input_of r) r.previous_hash r.created_at

  -- In an intact chain let a row with a hash be replaced by one that keeps the stored hash and has
  -- another payload. If SHA-256 does not collide on the two, the chain is found broken at that row.
  pub tamper_detected :
      (now : ℕ) (anchor : Option String) (before after : List (AuditLog J)) (r r' : AuditLog J)
      (h : String)
      → IsChained outside anchor (before ++ r ∷ after)
      → r.hash ≡ some h
      → r'.hash ≡ some h
      → payload r' ≢ payload r
      → (outside.sha256 (payload r') ≡ outside.sha256 (payload r) → payload r' ≡ payload r)
      → verify_chain_integrity outside now anchor (before ++ r' ∷ after) ≡ broken (length before) r'
  tamper_detected now anchor before after r r' h c e e' differ no_collision =
      let (b, (f, rest)) = (append-IsChained anchor before (r ∷ after)).0 c in
      let g = subst (FollowsBy (tip anchor before) r.previous_hash (row_hash outside r)) e f in
      break_found now anchor before after r' b (λ f'.
        let g' =
          subst (FollowsBy (tip anchor before) r'.previous_hash (row_hash outside r')) e' f' in
        differ (no_collision (sym g'.1 ∙ g.1)))
