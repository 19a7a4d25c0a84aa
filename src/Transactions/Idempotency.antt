-- ===== src/Transactions/Idempotency.antt =====
-- modules/transactions/transaction.service.ts, `create`, with the idempotency records of
-- transaction.repository.ts: the record of one principal, operation and key hash. The unique index lets at
-- most one exist. Each function is one call of the database; `now` is in milliseconds.
use astroid_api.Common.{
  ℕ, ◌+◌, ◌*◌, String, Bool, true, false, not, ◌&&◌, Option, none, some, str_eq, leb, ◌==◌,
  if◌then◌else◌,
}
use astroid_api.Schema.{IdempotencyStatus, processing, completed}

pub record Entry : Type 0 where
  pub id : ℕ
  pub request_hash : String
  pub status : IdempotencyStatus
  pub transaction_id : Option String
  pub response : Option String
  pub expires_at : ℕ

abbrev pub Slot : Type 0
Slot = Option Entry

-- `IDEMPOTENCY_RETENTION_MS`
abbrev pub retention_ms : ℕ
retention_ms = 24 * 60 * 60 * 1000

-- `deleteMany({ expiresAt: { lte: now } })`
unfoldable pub delete_expired : ℕ → Slot → Slot
delete_expired now none = none
delete_expired now (some e) = if leb e.expires_at now then none else some e

abbrev pub new_entry : ℕ → String → ℕ → Entry
new_entry id hash expires_at = record {
  id = id;
  request_hash = hash;
  status = processing;
  transaction_id = none;
  response = none;
  expires_at = expires_at;
}

pub data Reservation : Type 0 where
  created : (id : ℕ) → Reservation
  existing : Entry → Reservation

-- `create`, which the unique index refuses when a record is there; then that record is read.
unfoldable pub insert : ℕ → String → ℕ → Slot → Reservation × Slot
insert id hash expires_at none = (created id, some (new_entry id hash expires_at))
insert id hash expires_at (some e) = (existing e, some e)

-- `reserveIdempotencyKey` with the identifier that a new record would get.
unfoldable pub reserve : ℕ → ℕ → String → Slot → Reservation × Slot
unfolding delete_expired insert
reserve now id hash slot = insert id hash (now + retention_ms) (delete_expired now slot)

-- Writes the record with this identifier, if it is there; `update` throws if it is not.
abbrev pub update_entry : ℕ → (Entry → Entry) → Slot → Bool × Slot
update_entry id f none = (false, none)
update_entry id f (some e) = if e.id == id then (true, some (f e)) else (false, some e)

unfoldable pub attach_transaction : ℕ → String → Slot → Bool × Slot
attach_transaction id transaction slot =
    update_entry id (λ e. record e { transaction_id = some transaction }) slot

unfoldable pub complete : ℕ → String → String → ℕ → Slot → Bool × Slot
complete id transaction response expires_at slot =
    update_entry id
      (λ e. record e {
        status = completed;
        transaction_id = some transaction;
        response = some response;
        expires_at = expires_at;
      })
      slot

abbrev pub is_missing {ℓ} : {A : Type ℓ} → Option A → Bool
is_missing none = true
is_missing (some a) = false

-- `releaseIdempotencyKey`: `deleteMany({ id, transactionId: null })`
unfoldable pub release : ℕ → Slot → Slot
release id none = none
release id (some e) = if (e.id == id) && is_missing e.transaction_id then none else some e

abbrev pub is_completed : IdempotencyStatus → Bool
is_completed completed = true
is_completed _ = false

-- What `create` answers at once, when the key was already reserved.
pub data Answer : Type 0 where
  different_payload in_progress : Answer
  recorded : (response : String) → Answer

abbrev pub replay : Option String → IdempotencyStatus → Answer
replay (some response) completed = recorded response
replay _ _ = in_progress

-- `none`: the call goes on and creates the transaction.
unfoldable pub answer : String → Reservation → Option Answer
answer hash (created id) = none
answer hash (existing e) =
    if not (str_eq e.request_hash hash)
    then some different_payload
    else some (replay e.response e.status)
