-- ===== src/WebhookDelivery/Agreement.antt =====
-- Whether the worker, the classifier and the row of a delivery agree.
use astroid_api.Common.{
  ℕ, ◌≤◌, ◌<◌, ◌≡◌, refl, sym, ◌∙◌, ◌≢◌, ◌↔◌, inl, inr, Bool, true, false, not, ◌&&◌, ◌||◌, Option,
  none, some, arith, if◌then◌else◌, Bool-cases, Option-cases, false≢true,
}
use astroid_api.WebhookDelivery.Classification.{
  classify_http_status, non_transient_statuses, is_redirect, Thrown, destination_error,
  resolution_error, permanent_error, plain_error, other_message,
}
use astroid_api.WebhookDelivery.Process.{
  delivered_row, count_failure, status_message, Delivery, DeliveryStatus, retrying, failed,
  delivered, Attempt, answers, Ended, succeeds, gives_up, fails, delays, Job, is_last_attempt,
  is_client_error, is_retried_status, is_success, thrown_by, response_of, handle, attempt,
}

count-ended :
    (now : ℕ) (j : Job) (e : Thrown) (response : Option ℕ)
    → (count_failure now j e response).ended ≡ fails
count-ended now j e response = elim (Bool-cases (j.circuit_enabled && not j.failure_recorded)) [
  | inl q ↦ rw q refl
  | inr q ↦ rw q refl
]

fails≢gives_up : fails ≢ gives_up
fails≢gives_up h = ground (arith, h)

succeeds≢gives_up : succeeds ≢ gives_up
succeeds≢gives_up h = ground (arith, h)

-- The worker gives up on an answer exactly when it is a redirect or a client error that is not retried.
attempt-gives_up :
    (now : ℕ) (j : Job) (s : ℕ) (recorded : Bool)
    → ((attempt now j (answers s recorded)).ended ≡ gives_up)
      ↔ ((is_success s ≡ false) × ((is_redirect s || is_client_error s) ≡ true))
unfolding attempt handle
attempt-gives_up now j s recorded = elim (Bool-cases (is_success s)) [
  | inl e ↦ elim (Bool-cases recorded) [
    | inl q ↦
        (λ h. absurd (succeeds≢gives_up (rw (e, q) at h)), λ h. absurd (false≢true (sym h.0 ∙ e)))
    | inr q ↦ (
      λ h.
          let k : (count_failure now j (plain_error other_message) (some s)).ended ≡ gives_up =
            rw (e, q) at h in
          absurd (fails≢gives_up (sym (count-ended now j _ (some s)) ∙ k)),
      λ h. absurd (false≢true (sym h.0 ∙ e)),
    )
  ]
  | inr e ↦ elim (Bool-cases (is_redirect s)) [
    | inl k ↦ (λ h. (e, rw k refl), λ h. rw (e, k) refl)
    | inr k ↦ elim (Bool-cases (is_client_error s)) [
      | inl l ↦ (λ h. (e, rw (k, l) refl), λ h. rw (e, k, l) refl)
      | inr l ↦ (
        λ h.
            let q : (count_failure now j (plain_error (status_message s)) (some s)).ended
                ≡ gives_up =
              rw (e, k, l) at h in
            absurd (fails≢gives_up (sym (count-ended now j _ (some s)) ∙ q)),
        λ h. absurd (false≢true (rw (k, l) at h.1)),
      )
    ]
  ]
]

-- The worker gives up on a status that the classifier calls worth retrying exactly for the statuses from 400
-- to 499 that are none of 400, 401, 403, 404, 422, 408, 425 and 429.
pub disagreement_iff :
    (now : ℕ) (j : Job) (s : ℕ) (recorded : Bool)
    → (((attempt now j (answers s recorded)).ended ≡ gives_up)
        × ((classify_http_status s).transient ≡ true))
      ↔ (((400 ≤ s) × (s < 500))
          × ((non_transient_statuses s ≡ false) × (is_retried_status s ≡ false)))
unfolding classify_http_status
disagreement_iff now j s recorded =
    let (into, back) = attempt-gives_up now j s recorded in
    (
      λ (h, k).
          let (lost, stopped) = into h in
          elim (Bool-cases (is_redirect s)) [
            | inl e ↦ absurd (false≢true (rw e at k))
            | inr e ↦ elim (Bool-cases (non_transient_statuses s)) [
              | inl l ↦ absurd (false≢true (rw (e, l) at k))
              | inr l ↦
                  let client : is_client_error s ≡ true = rw e at stopped in
                  ((ground (arith, client), ground (arith, client)), (l, ground (arith, client)))
            ]
          ],
      λ ((low, high), (l, q)).
          let e : is_redirect s ≡ false = ground (arith, low) in
          (back (ground (arith, low), rw e (ground (arith, low, high, q))), rw (e, l) refl),
    )

-- What the row should say, given how the job ends: whether BullMQ will try again.
abbrev pub status_after : Job → Ended → DeliveryStatus
status_after j succeeds = delivered
status_after j gives_up = failed
status_after j fails = if is_last_attempt j then failed else retrying
status_after j (delays until) = retrying

count-status :
    (now : ℕ) (j : Job) (e : Thrown) (response : Option ℕ) (r : Delivery)
    → (count_failure now j e response).row ≡ some r
    → r.status ≡ status_after j (count_failure now j e response).ended
count-status now j e response r h =
    elim (Bool-cases (j.circuit_enabled && not j.failure_recorded)) [
      | inl q ↦ absurd (ground (arith, q, h))
      | inr q ↦ ground (arith, q, h)
    ]

handle-status :
    (now : ℕ) (j : Job) (e : Thrown) (response : Option ℕ) (r : Delivery)
    → (handle now j e response).row ≡ some r
    → r.status ≡ status_after j (handle now j e response).ended
unfolding handle
handle-status now j destination_error response r h = ground (arith, h)
handle-status now j resolution_error response r h = count-status now j resolution_error response r h
handle-status now j (permanent_error m) none r h = ground (arith, h)
handle-status now j (permanent_error m) (some s) r h = ground (arith, h)
handle-status now j (plain_error m) response r h = count-status now j (plain_error m) response r h

-- What an attempt writes to the row is what becomes of the job: DELIVERED if the attempt succeeds, FAILED if
-- the worker gives up or the failure uses up the last attempt, and RETRYING if BullMQ will try again.
row_status :
    (now : ℕ) (j : Job) (a : Attempt) (r : Delivery)
    → (attempt now j a).row ≡ some r
    → r.status ≡ status_after j (attempt now j a).ended
unfolding attempt
row_status now j a r h = elim (Option-cases (thrown_by a)) [
  | inl e ↦
      let k : some (delivered_row j (response_of a)) ≡ some r = rw e at h in
      rw e (ground (arith, k))
  | inr (t, e) ↦ rw e (handle-status now j t (response_of a) r (rw e at h))
]
