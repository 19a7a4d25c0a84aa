-- ===== src/CircuitBreaker/Classify.antt =====
-- `isRpcFailure`: which thrown errors count against a breaker that guards an RPC client.
use astroid_api.Common.{
  ℕ, ◌<◌, String, ◌≡◌, refl, ◌↔◌, inl, inr, Bool, true, false, Option, none, some, List, [], ◌∷◌,
  arith, leb, if◌then◌else◌, Bool-cases, includes, or_other,
}

-- A thrown value, as far as the classifier looks: a DomainException, `null` or a value that is no
-- object, or an object with the fields that it reads. A field is `none` when it has another type.
pub data Thrown : Type 0 where
  domain : Thrown
  primitive : Thrown
  object : (code : Option String) (status : Option ℕ) (response_status : Option ℕ) → Thrown

abbrev pub network_error_codes : List String
network_error_codes =
    "ECONNREFUSED" ∷ "ECONNRESET" ∷ "ETIMEDOUT" ∷ "EAI_AGAIN" ∷ "ENOTFOUND" ∷ "ENETUNREACH" ∷ []

unfoldable pub is_network_code : Option String → Bool
is_network_code none = false
is_network_code (some code) = includes network_error_codes code

unfoldable pub is_rpc_failure : Thrown → Bool
unfolding is_network_code
is_rpc_failure domain = false
is_rpc_failure primitive = true
is_rpc_failure (object code status response_status) =
    if is_network_code code
    then true
    else elim (or_other status response_status) [ none ↦ true | some s ↦ leb 500 s ]

-- A DomainException, or an object without a network error code whose HTTP status (its own, else the
-- response's) is below 500.
abbrev pub IsTolerated : Thrown → Type 0
IsTolerated domain = Unit
IsTolerated primitive = ⊥
IsTolerated (object code own response) =
    (is_network_code code ≡ false) × ((n : ℕ) × (or_other own response ≡ some n) × (n < 500))

tolerated_status :
    (o : Option ℕ)
    → (elim o [ none ↦ true | some s ↦ leb 500 s ]) ≡ false
    → (n : ℕ) × (o ≡ some n) × (n < 500)
tolerated_status none h = cc
tolerated_status (some n) h = (n, refl, ground arith)

-- An error is not counted exactly when it is tolerated: every other error counts as a failure.
pub is_rpc_failure_iff : (e : Thrown) → (is_rpc_failure e ≡ false) ↔ IsTolerated e
unfolding is_rpc_failure
is_rpc_failure_iff domain = (λ h. tt, λ h. refl)
is_rpc_failure_iff primitive = (λ h. cc, λ h. absurd h)
is_rpc_failure_iff (object code own response) = elim (Bool-cases (is_network_code code)) [
  | inl e ↦ (λ h. absurd (ground (arith, e)), λ (other, r). cc)
  | inr e ↦ (
    λ h. (e, tolerated_status (or_other own response) (ground (arith, e))),
    λ (other, (n, at, lt)). rw (e, at) (ground arith),
  )
]
