-- ===== src/Audit/Ambiguity.antt =====
-- The text that is hashed does not delimit its parts.
use astroid_api.Common.{ℕ, String, ◌≡◌, ap, Option}
use Prim.Native.String
use text.Mathlib.TextLemmas.{append_assoc}
use astroid_api.Audit.{Outside, AuditHashInput, join, build_canonical_payload, compute_entry_hash}

-- `a|entity:b`
abbrev pub with_entity : String → String → String
with_entity a b = String.◌++◌ a (String.◌++◌ "|" (String.◌++◌ "entity:" b))

module _ {J : Type 0} (outside : Outside J) where
  -- Text that reads `|entity:` may move from the end of the action to the start of the entity, and the
  -- hash stays the same, whatever the rest is.
  pub shifted_hash :
      (input : AuditHashInput J) (a b c : String) (previous : Option String) (now : ℕ)
      → compute_entry_hash outside
          (record input { action = with_entity a b; entity = c })
          previous
          now
        ≡ compute_entry_hash outside
            (record input { action = a; entity = with_entity b c })
            previous
            now
  unfolding compute_entry_hash build_canonical_payload join
  shifted_hash input a b c previous now =
      ap (λ s. record { previous_hash = previous; hash = outside.sha256 s }) (simp append_assoc)
