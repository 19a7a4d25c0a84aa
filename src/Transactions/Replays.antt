-- ===== src/Transactions/Replays.antt =====
-- modules/transactions/transaction.service.ts, `create`: what a call with an Idempotency-Key is answered whose record is there.
use astroid_api.Common.{
  ℕ, ◌<◌, String, ◌≡◌, refl, sym, ◌∙◌, ◌≢◌, ◌↔◌, ◌⊎◌, inl, inr, false, Option, none, some, arith,
  str_eq, eq_iff, leb, Bool-cases, false≢true,
}
use astroid_api.Schema.{IdempotencyStatus, processing, completed}
use astroid_api.Transactions.Idempotency.{
  Entry, delete_expired, Answer, insert, reserve, different_payload, recorded, in_progress, replay,
  answer,
}

-- What a record answers to a call with its payload.
abbrev pub Replays : Option String → IdempotencyStatus → Answer → Type 0
Replays response status a =
    ((r : String) → (a ≡ recorded r) ↔ ((status ≡ completed) × (response ≡ some r)))
    × ((a ≢ different_payload) × ((a ≡ in_progress) ↔ ((status ≡ processing) ⊎ (response ≡ none))))

replay-Replays :
    (response : Option String) (status : IdempotencyStatus)
    → Replays response status (replay response status)
replay-Replays none processing = (
  λ r. (λ h. absurd (ground (arith, h)), λ h. absurd (ground (arith, h.1))),
  (λ h. ground (arith, h), (λ h. inl refl, λ h. refl)),
)
replay-Replays none completed = (
  λ r. (λ h. absurd (ground (arith, h)), λ h. absurd (ground (arith, h.1))),
  (λ h. ground (arith, h), (λ h. inr refl, λ h. refl)),
)
replay-Replays (some s) processing = (
  λ r. (λ h. absurd (ground (arith, h)), λ h. absurd (ground (arith, h.0))),
  (λ h. ground (arith, h), (λ h. inl refl, λ h. refl)),
)
replay-Replays (some s) completed = (
  λ r. (λ h. (refl, ground (arith, h)), λ h. ground (arith, h.1)),
  (
    λ h. ground (arith, h),
    (
      λ h. absurd (ground (arith, h)),
      λ h. absurd (elim h [ inl e ↦ ground (arith, e) | inr e ↦ ground (arith, e) ]),
    ),
  ),
)

-- A call with a key whose record has not expired reserves nothing and changes nothing. It gets a recorded
-- response exactly when its payload has the record's hash and the record is COMPLETED with that response; it
-- is refused as another payload when the hash differs, and then only; and it is told that the first call is in
-- progress when the record is PROCESSING, even when that call has failed, or has no response.
pub answer_reserved :
    (now id : ℕ) (hash : String) (e : Entry)
    → now < e.expires_at
    → (let (reservation, slot) = reserve now id hash (some e) in
        (slot ≡ some e)
        × (((e.request_hash ≢ hash) × (answer hash reservation ≡ some different_payload))
            ⊎ ((e.request_hash ≡ hash)
                × ((a : Answer) × ((answer hash reservation ≡ some a)
                      × Replays e.response e.status a)))))
unfolding reserve insert delete_expired answer
answer_reserved now id hash e h =
    let kept : leb e.expires_at now ≡ false = ground (arith, h) in
    rw kept (elim (Bool-cases (str_eq e.request_hash hash)) [
      | inl q ↦ rw q (
        refl,
        inr (
          (eq_iff e.request_hash hash).0 q,
          (replay e.response e.status, (refl, replay-Replays e.response e.status)),
        ),
      )
      | inr q ↦
          rw q (refl, inl (λ same. false≢true (sym q ∙ (eq_iff e.request_hash hash).1 same), refl))
    ])
