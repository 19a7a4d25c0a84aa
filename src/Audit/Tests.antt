-- ===== src/Audit/Tests.antt =====
-- A short log, with the identity in the place of SHA-256.
use astroid_api.Common.{
  ℕ, zero, suc, String, ◌≡◌, refl, sym, ap, ◌≢◌, ◌↔◌, true, none, some, List, [], ◌∷◌, ◌++◌, arith,
  eq_iff, or_else, false≢true,
}
use Prim.Native.String
use text.Mathlib.TextLemmas.{append_cancel_left, append-eq-nil_iff}
use astroid_api.Audit.{
  Outside, AuditHashInput, AuditLog, broken, compute_entry_hash, verify_chain_integrity,
  record_entry,
}
use astroid_api.Audit.Chain.{IsChained, valid_iff}
use astroid_api.Audit.Detection.{payload, tamper_detected}
use astroid_api.Audit.Recording.{record_at_other_time}

abbrev strokes : ℕ → String
strokes zero = ""
strokes (suc n) = String.◌++◌ "i" (strokes n)

strokes_inj : (a b : ℕ) → strokes a ≡ strokes b → a ≡ b
strokes_inj zero zero h = refl
strokes_inj zero (suc b) h = absurd (false≢true ((eq_iff "i" "").1 (append-eq-nil_iff.0 (sym h)).0))
strokes_inj (suc a) zero h = absurd (false≢true ((eq_iff "i" "").1 (append-eq-nil_iff.0 h).0))
strokes_inj (suc a) (suc b) h = ap suc (strokes_inj a b (append_cancel_left "i" _ _ h))

abbrev outside : Outside String
outside = record {
  sha256 = λ s. s;
  json = λ o. or_else o "null";
  to_iso_string = strokes;
  sanitize = λ j. j;
}

abbrev event : String → AuditHashInput String
event action = record {
  organization_id = "org";
  user_id = some "ann";
  action = action;
  entity = "wallet";
  entity_id = none;
  old_value = none;
  new_value = some "1";
  ip_address = none;
  device = none;
  created_at = none;
}

abbrev first : AuditLog String
first = record_entry outside "1" 3 3 (event "create") []

abbrev rows : List (AuditLog String)
rows = first ∷ record_entry outside "2" 4 4 (event "update") (first ∷ []) ∷ []

audit : Unit {0}
unfolding compute_entry_hash verify_chain_integrity record_entry
audit = tt

rows_valid : (verify_chain_integrity outside 9 none rows).valid ≡ true
unfolding audit
rows_valid = refl

rows-IsChained : IsChained outside none rows
rows-IsChained = (valid_iff outside 9 none rows).0 rows_valid

valid_iff_example :
    ((verify_chain_integrity outside 9 none rows).valid ≡ true) ↔ IsChained outside none rows
valid_iff_example = valid_iff outside 9 none rows

-- The first row with another actor.
abbrev forged : AuditLog String
forged = record first { content = record first.content { user_id = some "bob" } }

forged-broken : verify_chain_integrity outside 9 none (forged ∷ []) ≡ broken 0 forged
unfolding audit
forged-broken = refl

forged_differs : payload outside forged ≢ payload outside first
unfolding audit
forged_differs h = false≢true ((eq_iff (payload outside forged) (payload outside first)).1 h)

tamper_detected_example :
    verify_chain_integrity outside 9 none
      ([] ++ forged ∷ record_entry outside "2" 4 4 (event "update") (first ∷ []) ∷ [])
    ≡ broken 0 forged
unfolding audit
tamper_detected_example =
    tamper_detected outside 9 none []
      (record_entry outside "2" 4 4 (event "update") (first ∷ []) ∷ []) first forged
      (payload outside first) rows-IsChained refl refl forged_differs (λ h. h)

record_at_other_time_example :
    verify_chain_integrity outside 9 none
      ([] ++ record_entry outside "3" 9 10 (event "delete") [] ∷ [])
    ≡ broken 0 (record_entry outside "3" 9 10 (event "delete") [])
unfolding audit
record_at_other_time_example =
    record_at_other_time outside "3" 9 10 (event "delete") none [] refl (omega arith) strokes_inj
      (λ h. h)
