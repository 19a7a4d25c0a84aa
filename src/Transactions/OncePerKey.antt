-- ===== src/Transactions/OncePerKey.antt =====
-- Any number of overlapping calls of `create` with one Idempotency-Key: how many transactions they create.
use astroid_api.Common.{
  ℕ, suc, ◌+◌, ◌≤◌, ◌<◌, String, ◌≡◌, refl, inl, inr, false, ◌&&◌, none, some, arith, ◌==◌,
  Bool-cases,
}
use astroid_api.Transactions.Idempotency.{
  Entry, Slot, delete_expired, created, insert, update_entry, attach_transaction, complete, release,
  is_missing,
}

-- The record, and the next identifier, which is no record's yet. Then, since a record of the key was last
-- deleted because it had expired: the first identifier, the calls that reserved the key and have
-- inserted no row, those that have and whose `transactionId` is still unset, the rows inserted, and the
-- calls that released the key although they had inserted a row.
pub record Keyed : Type 0 where
  pub slot : Slot
  pub next : ℕ
  pub since : ℕ
  pub holders : ℕ
  pub unnoted : ℕ
  pub transactions : ℕ
  pub freed : ℕ

-- One call of the database by one call of `create`, or of the job that deletes expired records.
pub data KeyStep : Keyed → Keyed → Type 0 where
  expires :
      {k : Keyed} (now : ℕ) (e : Entry)
      → k.slot ≡ some e
      → delete_expired now k.slot ≡ none
      → KeyStep k (record {
        slot = delete_expired now k.slot;
        next = k.next;
        since = k.next;
        holders = 0;
        unnoted = 0;
        transactions = 0;
        freed = 0;
      })
  reserves :
      {k : Keyed} (hash : String) (expires_at : ℕ)
      → (insert k.next hash expires_at k.slot).0 ≡ created k.next
      → KeyStep k (record k {
        slot = (insert k.next hash expires_at k.slot).1;
        next = suc k.next;
        holders = suc k.holders;
      })
  -- The row is inserted; under an agent's lock, which is released next.
  creates :
      {k : Keyed} (n : ℕ)
      → k.holders ≡ suc n
      → KeyStep k
          (record k { holders = n; unnoted = suc k.unnoted; transactions = suc k.transactions })
  -- `transactionId = transaction.id` in `onTransactionCreated`
  notes : {k : Keyed} (n : ℕ) → k.unnoted ≡ suc n → KeyStep k (record k { unnoted = n })
  attaches :
      {k : Keyed} (id : ℕ) (transaction : String)
      → KeyStep k (record k { slot = (attach_transaction id transaction k.slot).1 })
  completes :
      {k : Keyed} (id : ℕ) (transaction response : String) (expires_at : ℕ)
      → KeyStep k (record k { slot = (complete id transaction response expires_at k.slot).1 })
  -- The `catch` of a call whose `transactionId` is unset: it threw before it inserted the row,
  releases :
      {k : Keyed} (id n : ℕ)
      → k.holders ≡ suc n
      → KeyStep k (record k { slot = release id k.slot; holders = n })
  -- or it inserted the row and the release of the agent's lock threw,
  releases_late :
      {k : Keyed} (id n : ℕ)
      → k.unnoted ≡ suc n
      → KeyStep k (record k { slot = release id k.slot; unnoted = n; freed = suc k.freed })
  -- or it is a call whose own record has expired since.
  releases_stale :
      {k : Keyed} (id : ℕ) → id < k.since → KeyStep k (record k { slot = release id k.slot })

abbrev pub is_free : Slot → ℕ
is_free none = 1
is_free (some e) = 0

pub data KeyRun : Keyed → Type 0 where
  start : KeyRun (record {
    slot = none;
    next = 0;
    since = 0;
    holders = 0;
    unnoted = 0;
    transactions = 0;
    freed = 0;
  })
  later : {j k : Keyed} → KeyRun j → KeyStep j k → KeyRun k

update-is_free :
    (id : ℕ) (f : Entry → Entry) (slot : Slot) → is_free (update_entry id f slot).1 ≡ is_free slot
update-is_free id f none = refl
update-is_free id f (some e) = ground arith

insert-is_free :
    (id : ℕ) (hash : String) (expires_at : ℕ) (slot : Slot)
    → (insert id hash expires_at slot).0 ≡ created id
    → is_free (insert id hash expires_at slot).1 + 1 ≡ is_free slot
unfolding insert
insert-is_free id hash expires_at none h = refl
insert-is_free id hash expires_at (some e) h = ground arith

is_free-le : (slot : Slot) → is_free slot ≤ 1
is_free-le none = omega arith
is_free-le (some e) = omega arith

-- The record's identifier is not below the given one.
abbrev IsSince : ℕ → Slot → Type 0
IsSince since none = Unit
IsSince since (some e) = since ≤ e.id

update-IsSince :
    (since id : ℕ) (f : Entry → Entry) (slot : Slot)
    → ((e : Entry) → (f e).id ≡ e.id)
    → IsSince since slot
    → IsSince since (update_entry id f slot).1
update-IsSince since id f none keeps h = tt
update-IsSince since id f (some e) keeps h = elim (Bool-cases (e.id == id)) [
  | inl q ↦ rw (q, keeps e) h
  | inr q ↦ rw q h
]

release-IsSince :
    (since id : ℕ) (slot : Slot) → IsSince since slot → IsSince since (release id slot)
unfolding release
release-IsSince since id none h = tt
release-IsSince since id (some e) h =
    elim (Bool-cases ((e.id == id) && is_missing e.transaction_id)) [
      | inl q ↦ rw q tt
      | inr q ↦ rw q h
    ]

release-other :
    (since id : ℕ) (slot : Slot) → IsSince since slot → id < since → release id slot ≡ slot
unfolding release
release-other since id none h less = refl
release-other since id (some e) h less =
    let other : (e.id == id) ≡ false = ground (arith, h, less) in rw other refl

insert-IsSince :
    (since id : ℕ) (hash : String) (expires_at : ℕ) (slot : Slot)
    → since ≤ id
    → IsSince since slot
    → IsSince since (insert id hash expires_at slot).1
unfolding insert
insert-IsSince since id hash expires_at none le h = le
insert-IsSince since id hash expires_at (some e) le h = h

-- Since the last record expired, the rows, the calls that may insert one and the free key are at most one
-- more than the calls that freed the key.
IsKeyed : Keyed → Type 0
IsKeyed k =
    (k.transactions + k.holders + is_free k.slot ≤ 1 + k.freed)
    × ((k.since ≤ k.next) × IsSince k.since k.slot)

step-IsKeyed : {j k : Keyed} → KeyStep j k → IsKeyed j → IsKeyed k
unfolding IsKeyed attach_transaction complete
step-IsKeyed (expires now e found gone) (h, (o, i)) = rw gone (omega arith, (omega arith, tt))
step-IsKeyed {j} (reserves hash at made) (h, (o, i)) = (
  omega (arith, h, insert-is_free j.next hash at j.slot made),
  (omega (arith, o), insert-IsSince j.since j.next hash at j.slot o i),
)
step-IsKeyed (creates n e) (h, (o, i)) = (omega (arith, h, e), (o, i))
step-IsKeyed (notes n e) h = h
step-IsKeyed {j} (attaches id t) (h, (o, i)) = (
  omega (arith, h, update-is_free id _ j.slot),
  (o, update-IsSince j.since id _ j.slot (λ e. refl) i),
)
step-IsKeyed {j} (completes id t r at) (h, (o, i)) = (
  omega (arith, h, update-is_free id _ j.slot),
  (o, update-IsSince j.since id _ j.slot (λ e. refl) i),
)
step-IsKeyed {j} (releases id n e) (h, (o, i)) =
    (omega (arith, h, e, is_free-le (release id j.slot)), (o, release-IsSince j.since id j.slot i))
step-IsKeyed {j} (releases_late id n e) (h, (o, i)) =
    (omega (arith, h, is_free-le (release id j.slot)), (o, release-IsSince j.since id j.slot i))
step-IsKeyed {j} (releases_stale id less) (h, (o, i)) =
    rw (release-other j.since id j.slot i less) (h, (o, i))

run-IsKeyed : {k : Keyed} → KeyRun k → IsKeyed k
unfolding IsKeyed
run-IsKeyed start = (omega arith, (omega arith, tt))
run-IsKeyed (later r s) = step-IsKeyed s (run-IsKeyed r)

-- However calls with one key overlap and wherever they fail, those that have reserved the key since its record
-- was last deleted because it had expired insert at most one row, plus one for each of them that
-- released the key although it had inserted its row; a call that may still insert one counts as one. A call
-- whose own record has expired cannot release the key for the others.
pub one_transaction_per_key : {k : Keyed} → KeyRun k → k.transactions + k.holders ≤ 1 + k.freed
unfolding IsKeyed
one_transaction_per_key r = omega (arith, (run-IsKeyed r).0)
