-- ===== src/Audit/Recording.antt =====
-- Rows that `record` appends.
use astroid_api.Common.{
  ℕ, String, ◌≡◌, refl, sym, ap, ◌∙◌, subst, ◌≢◌, true, Option, none, some, List, [], ◌∷◌, ◌++◌,
  arith, or_else, or_other, length,
}
use Prim.Native.String
use text.Mathlib.TextLemmas.{append_cancel_left, append_cancel_right}
use astroid_api.Audit.{
  Outside, AuditHashInput, AuditLog, join, first_parts, broken, build_canonical_payload,
  verify_chain_integrity, get_latest_hash, sanitized, record_entry,
}
use astroid_api.Audit.Chain.{FollowsBy, next, row_hash, IsChained, valid_iff}
use astroid_api.Audit.Detection.{payload, tip, append-IsChained, break_found}

module _ {J : Type 0} (outside : Outside J) where
  -- The latest hash of the table is what the next row has to link to, or there is none.
  tip-latest :
      (expected : Option String) (rs : List (AuditLog J))
      → tip outside expected rs ≡ or_other (get_latest_hash rs) expected
  unfolding get_latest_hash
  tip-latest expected [] = refl
  tip-latest expected (r ∷ rs) =
      tip-latest (next expected r.hash) rs ∙ other (get_latest_hash rs) r.hash
    where
      other :
          (late own : Option String)
          → or_other late (next expected own) ≡ or_other (or_other late own) expected
      other none none = refl
      other none (some h) = refl
      other (some h) own = refl

  known :
      (late anchor : Option String) → (late ≡ none → anchor ≡ none) → or_other late anchor ≡ late
  known none anchor h = h refl
  known (some x) anchor h = refl

  -- If the table's chain is intact, the row's creation time is the time that was hashed, and the table
  -- has a hash or the archive has no anchor, then the chain with the recorded row is intact.
  record_extends :
      (id : String) (now default_now : ℕ) (input : AuditHashInput J) (anchor : Option String)
      (rows : List (AuditLog J))
      → (verify_chain_integrity outside now anchor rows).valid ≡ true
      → or_else input.created_at default_now ≡ now
      → (get_latest_hash rows ≡ none → anchor ≡ none)
      → (verify_chain_integrity outside now anchor
          (rows ++ record_entry outside id now default_now input rows ∷ [])).valid
        ≡ true
  unfolding record_entry build_canonical_payload
  record_extends id now default_now input anchor rows v clock anchored =
      let r = record_entry outside id now default_now input rows in
      (valid_iff outside now anchor (rows ++ r ∷ [])).1 (
        (append-IsChained outside anchor rows (r ∷ [])).1 (
          (valid_iff outside now anchor rows).0 v,
          (
            (
              sym (tip-latest anchor rows ∙ known (get_latest_hash rows) anchor anchored),
              ap
                  (λ n. outside.sha256 (
                    build_canonical_payload outside
                      (record input {
                        old_value = sanitized outside input.old_value;
                        new_value = sanitized outside input.new_value;
                        created_at = some n;
                      })
                      (get_latest_hash rows) n))
                  (sym clock),
            ),
            tt,
          ),
        ))

  both_none : (late own : Option String) → or_other late own ≡ none → (late ≡ none) × (own ≡ none)
  both_none none own h = (refl, h)
  both_none (some x) own h = ground (arith, h)

  unhashed :
      (expected : Option String) (rs : List (AuditLog J))
      → get_latest_hash rs ≡ none
      → IsChained outside expected rs
  unfolding get_latest_hash
  unhashed expected [] e = tt
  unhashed expected (r ∷ rs) e =
      let (late, own) = both_none (get_latest_hash rs) r.hash e in
      (
        subst (FollowsBy expected r.previous_hash (row_hash outside r)) (sym own) tt,
        unhashed (next expected r.hash) rs late,
      )

  -- If every row with a hash has been archived, the recorded row starts a new chain, and the
  -- verification finds it broken there.
  pub record_after_archive :
      (id : String) (now default_now : ℕ) (input : AuditHashInput J) (boundary : String)
      (rows : List (AuditLog J))
      → get_latest_hash rows ≡ none
      → verify_chain_integrity outside now
          (some boundary)
          (rows ++ record_entry outside id now default_now input rows ∷ [])
        ≡ broken (length rows) (record_entry outside id now default_now input rows)
  unfolding record_entry
  record_after_archive id now default_now input boundary rows e =
      break_found outside now (some boundary) rows []
        (record_entry outside id now default_now input rows) (unhashed (some boundary) rows e)
        (λ f.
          let q : none ≡ some boundary =
            sym e
            ∙ f.0
            ∙ tip-latest (some boundary) rows
            ∙ ap (λ o. or_other o (some boundary)) e in
          ground (arith, q))

  join-prefix :
      (xs : List String) (s t : String) (ss ts : List String)
      → join (xs ++ s ∷ ss) ≡ join (xs ++ t ∷ ts)
      → join (s ∷ ss) ≡ join (t ∷ ts)
  unfolding join
  join-prefix [] s t ss ts h = h
  join-prefix (x ∷ []) s t ss ts h = append_cancel_left "|" _ _ (append_cancel_left x _ _ h)
  join-prefix (x ∷ y ∷ xs) s t ss ts h =
      join-prefix (y ∷ xs) s t ss ts (append_cancel_left "|" _ _ (append_cancel_left x _ _ h))

  -- Payloads that differ in the time only are told apart by it.
  payload_time :
      (input : AuditHashInput J) (previous : Option String) (a b m n : ℕ)
      → build_canonical_payload outside (record input { created_at = some a }) previous m
        ≡ build_canonical_payload outside (record input { created_at = some b }) previous n
      → outside.to_iso_string a ≡ outside.to_iso_string b
  unfolding build_canonical_payload join
  payload_time input previous a b m n h =
      let times =
        join-prefix (first_parts outside input) (String.◌++◌ "ts:" (outside.to_iso_string a))
          (String.◌++◌ "ts:" (outside.to_iso_string b))
          (String.◌++◌ "prev:" (or_else previous "GENESIS") ∷ [])
          (String.◌++◌ "prev:" (or_else previous "GENESIS") ∷ []) h in
      append_cancel_left "ts:" _ _ (append_cancel_right _ _ _ times)

  -- The text that `record` hashes.
  abbrev pub hashed_payload : ℕ → AuditHashInput J → List (AuditLog J) → String
  hashed_payload now input rows =
      build_canonical_payload outside
        (record input {
          old_value = sanitized outside input.old_value;
          new_value = sanitized outside input.new_value;
          created_at = some now;
        })
        (get_latest_hash rows) now

  -- If the row's creation time is not the time that was hashed, printed times differ, and SHA-256 does
  -- not collide on the hashed text and the row's, then after an intact table the recorded row is found
  -- broken.
  pub record_at_other_time :
      (id : String) (now default_now : ℕ) (input : AuditHashInput J) (anchor : Option String)
      (rows : List (AuditLog J))
      → (verify_chain_integrity outside now anchor rows).valid ≡ true
      → or_else input.created_at default_now ≢ now
      → ((a b : ℕ) → outside.to_iso_string a ≡ outside.to_iso_string b → a ≡ b)
      → (outside.sha256 (hashed_payload now input rows)
            ≡ outside.sha256 (payload outside (record_entry outside id now default_now input rows))
          → hashed_payload now input rows
            ≡ payload outside (record_entry outside id now default_now input rows))
      → verify_chain_integrity outside now anchor
          (rows ++ record_entry outside id now default_now input rows ∷ [])
        ≡ broken (length rows) (record_entry outside id now default_now input rows)
  unfolding record_entry
  record_at_other_time id now default_now input anchor rows v differ times no_collision =
      let stored = or_else input.created_at default_now in
      let safe : AuditHashInput J = record input {
        old_value = sanitized outside input.old_value;
        new_value = sanitized outside input.new_value;
      } in
      break_found outside now anchor rows [] (record_entry outside id now default_now input rows)
        ((valid_iff outside now anchor rows).0 v)
        (λ f. differ (
          times stored now (
            sym
              (payload_time safe (get_latest_hash rows) now stored now stored (no_collision f.1)))))
