-- ===== src/Retry/Transient.antt =====
-- utils/retry.util.ts, `isTransientNetworkError` with `resolveErrorStatus` and `collectErrorSignals`. The pattern
-- of transient messages is an argument. `null` and `undefined`, whose fields cannot be read, are no
-- failures here, except as the cause of one.
use astroid_api.Common.{
  ℕ, zero, suc, String, Bool, false, ◌&&◌, ◌||◌, Option, none, some, List, [], ◌∷◌, leb,
  if◌then◌else◌, includes,
}

-- A field that should hold a status: undefined, null, a finite number, or anything else.
pub data Field : Type 0 where
  undefined null other : Field
  number : ℕ → Field

-- `getStatus()`, if the error has such a method.
pub data Getter : Type 0 where
  missing throws : Getter
  returns : Field → Getter

-- What a failure says of itself, without its cause.
pub record Signs : Type 0 where
  pub status : Field
  pub status_code : Field
  pub response_status : Option Field
  pub get_status : Getter
  pub code : Option String
  pub message : Option String
  pub not_retryable : Bool

-- A failure with its cause, and so on; the last one has none.
pub data Failure : Type 0 where
  uncaused : Signs → Failure
  caused : Signs → Failure → Failure

abbrev pub signs : Failure → Signs
signs (uncaused s) = s
signs (caused s cause) = s

-- `a ?? b`
abbrev pub coalesce : Field → Field → Field
coalesce undefined b = b
coalesce null b = b
coalesce a b = a

abbrev pub if_undefined : Field → Option Field → Field
if_undefined undefined (some b) = b
if_undefined a b = a

abbrev pub finite : Field → Option ℕ
finite (number n) = some n
finite _ = none

abbrev pub ask_status : Field → Getter → Option ℕ
ask_status undefined (returns f) = finite f
ask_status undefined _ = none
ask_status f getter = finite f

unfoldable pub resolve_error_status : Signs → Option ℕ
resolve_error_status s =
    ask_status (if_undefined (coalesce s.status s.status_code) s.response_status) s.get_status

-- The failures that `collectErrorSignals` looks at from a depth on, with the depths left.
unfoldable pub collect_error_signals : ℕ → Failure → List Signs
collect_error_signals zero f = []
collect_error_signals (suc left) (uncaused s) = s ∷ []
collect_error_signals (suc left) (caused s cause) = s ∷ collect_error_signals left cause

-- `TRANSIENT_ERROR_CODES`
abbrev pub transient_error_codes : List String
transient_error_codes =
    "ECONNRESET" ∷ "ECONNREFUSED" ∷ "ECONNABORTED" ∷ "ETIMEDOUT" ∷ "EAI_AGAIN" ∷ "EPIPE"
    ∷ "ENOTFOUND" ∷ "UND_ERR_CONNECT_TIMEOUT" ∷ "UND_ERR_HEADERS_TIMEOUT" ∷ "UND_ERR_BODY_TIMEOUT"
    ∷ "UND_ERR_SOCKET" ∷ []

abbrev pub any : (Signs → Bool) → List Signs → Bool
any p [] = false
any p (s ∷ more) = p s || any p more

abbrev pub has_transient_code : Signs → Bool
has_transient_code s = elim s.code as (λ o. Bool) [
  | none ↦ false
  | some code ↦ includes transient_error_codes code
]

module _ (is_transient_message : String → Bool) where
  abbrev pub has_transient_message : Signs → Bool
  has_transient_message s = elim s.message as (λ o. Bool) [
    | none ↦ false
    | some message ↦ is_transient_message message
  ]

  abbrev pub judge : Option ℕ → Bool → List Signs → Bool
  judge (some status) not_retryable found = leb 500 status && leb status 599
  judge none not_retryable found =
      if not_retryable
      then false
      else any has_transient_code found || any has_transient_message found

  -- Depths 0 to 5.
  unfoldable pub is_transient_network_error : Failure → Bool
  unfolding resolve_error_status collect_error_signals
  is_transient_network_error f =
      judge (resolve_error_status (signs f)) (signs f).not_retryable (collect_error_signals 6 f)
