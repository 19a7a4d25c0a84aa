-- ===== src/Audit.antt =====
-- modules/audit/audit-hash.service.ts and `record` of modules/audit/audit.service.ts: the hash chain of
-- an organization's audit log. Rows are listed by creation time, oldest first; SHA-256,
-- JSON.stringify, toISOString and the sanitizer are parameters; messages are left out.
pub mod Chain
pub mod Detection
pub mod Recording
pub mod Ambiguity
mod Tests
use astroid_api.Common.{
  ℕ, suc, String, Bool, true, false, not, ◌&&◌, Option, none, some, List, [], ◌∷◌, ◌++◌, str_eq,
  if◌then◌else◌, or_else, or_other,
}
use Prim.Native.String

-- What the source takes from outside: `json` is JSON.stringify of a value, or of null if there is none.
pub record Outside (J : Type 0) : Type 0 where
  pub sha256 : String → String
  pub json : Option J → String
  pub to_iso_string : ℕ → String
  pub sanitize : J → J

pub record AuditHashInput (J : Type 0) : Type 0 where
  pub organization_id : String
  pub user_id : Option String
  pub action : String
  pub entity : String
  pub entity_id : Option String
  pub old_value : Option J
  pub new_value : Option J
  pub ip_address : Option String
  pub device : Option String
  pub created_at : Option ℕ

pub record AuditHashResult : Type 0 where
  pub previous_hash : Option String
  pub hash : String

pub record IntegrityCheckResult : Type 0 where
  pub valid : Bool
  pub total_checked : ℕ
  pub broken_at_entry_id : Option String
  pub broken_at_index : Option ℕ

-- A row: what is hashed, always with its creation time, and the two hashes.
pub record AuditLog (J : Type 0) : Type 0 where
  pub id : String
  pub content : AuditHashInput J
  pub created_at : ℕ
  pub previous_hash : Option String
  pub hash : Option String

-- `parts.join('|')`
unfoldable pub join : List String → String
join [] = ""
join (s ∷ []) = s
join (s ∷ t ∷ rest) = String.◌++◌ s (String.◌++◌ "|" (join (t ∷ rest)))

abbrev pub same_hash : Option String → Option String → Bool
same_hash none none = true
same_hash (some a) (some b) = str_eq a b
same_hash _ _ = false

module _ {J : Type 0} where
  -- The input that a verification makes of a row.
  abbrev pub input_of : AuditLog J → AuditHashInput J
  input_of r = record r.content { created_at = some r.created_at }

  abbrev pub broken : ℕ → AuditLog J → IntegrityCheckResult
  broken i r = record {
    valid = false;
    total_checked = i;
    broken_at_entry_id = some r.id;
    broken_at_index = some i;
  }

  -- The hash of the newest row that has one.
  unfoldable pub get_latest_hash : List (AuditLog J) → Option String
  get_latest_hash [] = none
  get_latest_hash (r ∷ rs) = or_other (get_latest_hash rs) r.hash

module _ {J : Type 0} (outside : Outside J) where
  abbrev pub first_parts : AuditHashInput J → List String
  first_parts input =
      String.◌++◌ "org:" input.organization_id
      ∷ String.◌++◌ "user:" (or_else input.user_id "")
      ∷ String.◌++◌ "action:" input.action
      ∷ String.◌++◌ "entity:" input.entity
      ∷ String.◌++◌ "entityId:" (or_else input.entity_id "")
      ∷ String.◌++◌ "old:" (outside.json input.old_value)
      ∷ String.◌++◌ "new:" (outside.json input.new_value)
      ∷ String.◌++◌ "ip:" (or_else input.ip_address "")
      ∷ String.◌++◌ "device:" (or_else input.device "")
      ∷ []

  abbrev pub parts : AuditHashInput J → Option String → ℕ → List String
  parts input previous_hash now =
      first_parts input
      ++ String.◌++◌ "ts:" (outside.to_iso_string (or_else input.created_at now))
        ∷ String.◌++◌ "prev:" (or_else previous_hash "GENESIS")
        ∷ []

  unfoldable pub build_canonical_payload : AuditHashInput J → Option String → ℕ → String
  unfolding join
  build_canonical_payload input previous_hash now = join (parts input previous_hash now)

  unfoldable pub compute_entry_hash : AuditHashInput J → Option String → ℕ → AuditHashResult
  unfolding build_canonical_payload
  compute_entry_hash input previous_hash now = record {
    previous_hash = previous_hash;
    hash = outside.sha256 (build_canonical_payload input previous_hash now);
  }

  -- The loop of `verifyChainIntegrity` from the `i`-th row on, and one row with a hash.
  unfoldable pub check_rows : ℕ → ℕ → Option String → List (AuditLog J) → IntegrityCheckResult
  unfolding compute_entry_hash
  check_rows now i expected [] = record {
    valid = true;
    total_checked = i;
    broken_at_entry_id = none;
    broken_at_index = none;
  }
  check_rows now i expected (r ∷ rs) =
      let skipped = check_rows now (suc i) expected rs in
      let passed = check_rows now (suc i) r.hash rs in
      let computed = (compute_entry_hash (input_of r) r.previous_hash now).hash in
      if same_hash r.hash none
      then skipped
      else if not (same_hash r.previous_hash expected)
      then broken i r
      else if not (same_hash (some computed) r.hash)
      then broken i r
      else passed

  -- `archive_anchor` is the boundary hash of the newest archive that has one.
  unfoldable pub verify_chain_integrity :
      ℕ → Option String → List (AuditLog J) → IntegrityCheckResult
  unfolding check_rows
  verify_chain_integrity now archive_anchor entries = check_rows now 0 archive_anchor entries

  -- The two outcomes `valid` of `verifyEntryIntegrity`.
  unfoldable pub verify_entry_integrity : ℕ → Option (AuditLog J) → Bool
  unfolding compute_entry_hash
  verify_entry_integrity now none = false
  verify_entry_integrity now (some r) =
      not (same_hash r.hash none)
      && same_hash (some (compute_entry_hash (input_of r) r.previous_hash now).hash) r.hash

  abbrev pub sanitized : Option J → Option J
  sanitized none = none
  sanitized (some j) = some (outside.sanitize j)

  -- The row that `record` creates: `now` is the time it reads, `default_now` the database's, which
  -- the row takes as its creation time if the data has none.
  unfoldable pub record_entry : String → ℕ → ℕ → AuditHashInput J → List (AuditLog J) → AuditLog J
  unfolding compute_entry_hash get_latest_hash
  record_entry id now default_now input rows =
      let safe : AuditHashInput J = record input {
        old_value = sanitized input.old_value;
        new_value = sanitized input.new_value;
      } in
      let result =
        compute_entry_hash (record safe { created_at = some now }) (get_latest_hash rows) now in
      record {
        id = id;
        content = safe;
        created_at = or_else input.created_at default_now;
        previous_hash = result.previous_hash;
        hash = some result.hash;
      }
