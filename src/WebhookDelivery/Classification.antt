-- ===== src/WebhookDelivery/Classification.antt =====
-- modules/webhooks/utils/failure-classification.ts. The message of an error is told apart as far as the
-- classifier reads it.
use astroid_api.Common.{
  ℕ, Bool, true, false, ◌&&◌, ◌||◌, Option, none, some, ltb, leb, ◌==◌, if◌then◌else◌,
}

-- `non_transient` holds the statuses 400, 401, 403, 404 and 422.
abbrev pub non_transient_statuses : ℕ → Bool
non_transient_statuses s = s == 400 || (s == 401 || (s == 403 || (s == 404 || s == 422)))

pub data FailureCategory : Type 0 where
  transient_failure permanent_failure timeout circuit_open : FailureCategory

pub data FailureCode : Type 0 where
  destination_rejected dns_failure timed_out delivery_failed : FailureCode
  circuit_is_open webhook_configuration : FailureCode
  http : (status : ℕ) → FailureCode

pub record Classification : Type 0 where
  pub category : FailureCategory
  pub code : FailureCode
  pub transient : Bool

-- The text of an error: one that speaks of a timeout, `HTTP` and three digits, or another.
pub data Message : Type 0 where
  of_timeout other_message : Message
  of_status : (status : ℕ) → Message

-- What an attempt throws.
pub data Thrown : Type 0 where
  destination_error resolution_error : Thrown
  permanent_error plain_error : Message → Thrown

abbrev pub is_redirect : ℕ → Bool
is_redirect s = leb 300 s && ltb s 400

abbrev pub permanent_of : FailureCode → Classification
permanent_of code = record { category = permanent_failure; code = code; transient = false }

abbrev pub transient_of : FailureCode → Classification
transient_of code = record { category = transient_failure; code = code; transient = true }

unfoldable pub classify_http_status : ℕ → Classification
classify_http_status s =
    if is_redirect s
    then permanent_of (http s)
    else if non_transient_statuses s
    then permanent_of (http s)
    else transient_of (http s)

abbrev pub classify_message : Message → Classification
classify_message of_timeout = record { category = timeout; code = timed_out; transient = true }
classify_message (of_status s) = classify_http_status s
classify_message other_message = transient_of delivery_failed

abbrev pub classify_answered : Message → Option ℕ → Classification
classify_answered message none = classify_message message
classify_answered message (some s) = classify_http_status s

unfoldable pub classify_webhook_failure : Thrown → Option ℕ → Classification
unfolding classify_http_status
classify_webhook_failure destination_error status = permanent_of destination_rejected
classify_webhook_failure resolution_error status = transient_of dns_failure
classify_webhook_failure (permanent_error message) status = classify_answered message status
classify_webhook_failure (plain_error message) status = classify_answered message status
