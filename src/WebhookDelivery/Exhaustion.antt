-- ===== src/WebhookDelivery/Exhaustion.antt =====
-- A job that the processor visits again and again, as BullMQ does, until it ends: a deferral by the circuit
-- puts the same job back, and a failure counts as an attempt.
use astroid_api.WebhookCircuit.{CircuitDecision}
use astroid_api.Common.{
  ℕ, ◌+◌, ◌≤◌, ◌<◌, ◌≡◌, refl, ◌⊎◌, inl, inr, Bool, true, false, not, ◌&&◌, Option, none, some,
  List, [], ◌∷◌, arith, ltb, leb, if◌then◌else◌, Bool-cases, Option-cases, or_else, false≢true,
}
use astroid_api.WebhookDelivery.Classification.{
  Thrown, destination_error, resolution_error, permanent_error, plain_error,
}
use astroid_api.WebhookDelivery.Process.{
  Delivery, failed, delivered, Attempt, Ended, succeeds, gives_up, fails, delays, Processed, Job,
  max_attempts, is_last_attempt, thrown_by, response_of, handle, attempt, count_failure, failed_row,
  process, defer,
}

-- BullMQ tries again after a failure that is not unrecoverable while attempts are left, and only once when the
-- job names no number of attempts.
abbrev pub tries : Job → ℕ
tries j = or_else j.attempts 1

abbrev pub is_retried : Job → Ended → Bool
is_retried j fails = ltb (j.attempts_made + 1) (tries j)
is_retried j _ = false

ltb-leb : (a b c : ℕ) (v : Bool) → ltb c a ≡ v → a ≡ b → leb b c ≡ not v
ltb-leb a b c true h e = ground (arith, h, e)
ltb-leb a b c false h e = ground (arith, h, e)

abbrev pub next : Job → Job
next j = record j { attempts_made = j.attempts_made + 1 }

-- One visit: when it is, what the circuit decides, and how the request goes if it is sent.
pub record Visit : Type 0 where
  pub now : ℕ
  pub circuit : CircuitDecision
  pub goes : Attempt

abbrev pub is_delayed : Ended → Bool
is_delayed (delays until) = true
is_delayed _ = false

-- What a visit ends in, given how the job goes on if it is deferred or tried again.
abbrev pub resume : Job → Processed → Option Processed → Option Processed → Option Processed
resume j here deferred retried =
    if is_delayed here.ended
    then deferred
    else if is_retried j here.ended
    then retried
    else some here

-- The visit that ends the job; none if these visits do not end it.
unfoldable pub run_job : List Visit → Job → Option Processed
run_job [] j = none
run_job (v ∷ more) j =
    let deferred = run_job more j in
    let retried = run_job more (next j) in
    resume j (process v.now j v.circuit v.goes) deferred retried

-- The visits in which the request is sent: all of them if no circuit is enabled.
abbrev pub sent : Bool → Visit → ℕ
sent enabled v = if enabled && not v.circuit.allowed then 0 else 1

unfoldable pub all_sent : Bool → List Visit → ℕ
all_sent enabled [] = 0
all_sent enabled (v ∷ more) = sent enabled v + all_sent enabled more

pub IsSettled : Processed → Type 0
IsSettled p = (r : Delivery) × ((p.row ≡ some r) × ((r.status ≡ delivered) ⊎ (r.status ≡ failed)))

count-IsSettled :
    (now : ℕ) (j : Job) (e : Thrown) (response : Option ℕ)
    → (j.circuit_enabled && not j.failure_recorded) ≡ false
    → tries j ≡ max_attempts j
    → is_retried j (count_failure now j e response).ended ≡ false
    → IsSettled (count_failure now j e response)
unfolding IsSettled
count-IsSettled now j e response told same h =
    let stopped : ltb (j.attempts_made + 1) (tries j) ≡ false = rw told at h in
    let last : is_last_attempt j ≡ true = ltb-leb (tries j) (max_attempts j) _ false stopped same in
    rw told (failed_row now j e response, (refl, inr (rw last refl)))

handle-IsSettled :
    (now : ℕ) (j : Job) (e : Thrown) (response : Option ℕ)
    → (j.circuit_enabled && not j.failure_recorded) ≡ false
    → tries j ≡ max_attempts j
    → is_retried j (handle now j e response).ended ≡ false
    → IsSettled (handle now j e response)
unfolding handle IsSettled
handle-IsSettled now j destination_error response told same h = (_, (refl, inr refl))
handle-IsSettled now j resolution_error response told same h =
    count-IsSettled now j resolution_error response told same h
handle-IsSettled now j (permanent_error m) none told same h = (_, (refl, inr refl))
handle-IsSettled now j (permanent_error m) (some s) told same h = (_, (refl, inr refl))
handle-IsSettled now j (plain_error m) response told same h =
    count-IsSettled now j (plain_error m) response told same h

attempt-IsSettled :
    (now : ℕ) (j : Job) (a : Attempt)
    → (j.circuit_enabled && not j.failure_recorded) ≡ false
    → tries j ≡ max_attempts j
    → is_retried j (attempt now j a).ended ≡ false
    → IsSettled (attempt now j a)
unfolding attempt IsSettled
attempt-IsSettled now j a told same h = elim (Option-cases (thrown_by a)) [
  | inl e ↦ rw e (_, (refl, inl refl))
  | inr (t, e) ↦ rw e (handle-IsSettled now j t (response_of a) told same (rw e at h))
]

count-is_delayed :
    (now : ℕ) (j : Job) (e : Thrown) (response : Option ℕ)
    → is_delayed (count_failure now j e response).ended ≡ false
count-is_delayed now j e response =
    elim (Bool-cases (j.circuit_enabled && not j.failure_recorded)) [
      | inl q ↦ rw q refl
      | inr q ↦ rw q refl
    ]

handle-is_delayed :
    (now : ℕ) (j : Job) (e : Thrown) (response : Option ℕ)
    → is_delayed (handle now j e response).ended ≡ false
unfolding handle
handle-is_delayed now j destination_error response = refl
handle-is_delayed now j resolution_error response = count-is_delayed now j resolution_error response
handle-is_delayed now j (permanent_error m) response = refl
handle-is_delayed now j (plain_error m) response = count-is_delayed now j (plain_error m) response

attempt-is_delayed : (now : ℕ) (j : Job) (a : Attempt) → is_delayed (attempt now j a).ended ≡ false
unfolding attempt
attempt-is_delayed now j a = elim (Option-cases (thrown_by a)) [
  | inl e ↦ rw e refl
  | inr (t, e) ↦ rw e (handle-is_delayed now j t (response_of a))
]

defer-is_delayed :
    (now : ℕ) (j : Job) (d : CircuitDecision)
    → j.delayable ≡ true
    → is_delayed (defer now j d).ended ≡ true
defer-is_delayed now j d h = rw h refl

retried-is_last :
    (j : Job) (e : Ended)
    → tries j ≡ max_attempts j
    → is_retried j e ≡ true
    → is_last_attempt j ≡ false
retried-is_last j succeeds same h = absurd (false≢true h)
retried-is_last j gives_up same h = absurd (false≢true h)
retried-is_last j fails same h = ltb-leb (tries j) (max_attempts j) _ true h same
retried-is_last j (delays until) same h = absurd (false≢true h)

-- The circuit can record a failure when it is enabled, a job can be put back, and BullMQ tries the job as often
-- as the processor counts on.
abbrev pub IsServed : Job → Type 0
IsServed j =
    ((j.circuit_enabled && not j.failure_recorded) ≡ false)
    × (j.delayable ≡ true)
    × (tries j ≡ max_attempts j)

-- Take a job with an attempt left, whose failures the circuit can record, which can be put back when the circuit
-- is open, and which BullMQ tries as often as the processor counts on, as when the job names its number of
-- attempts. It ends once it has been visited so often that as many requests could be sent as it has
-- attempts left, however often it is deferred in between and whatever the requests do, if the circuit
-- answers at each visit: the visit that ends it hands the database a row that says DELIVERED or FAILED.
pub job_settles :
    (visits : List Visit) (j : Job)
    → IsServed j
    → j.attempts_made < max_attempts j
    → max_attempts j ≤ j.attempts_made + all_sent j.circuit_enabled visits
    → (p : Processed) × ((run_job visits j ≡ some p) × IsSettled p)
unfolding run_job all_sent process
job_settles [] j served left enough = absurd (omega (arith, left, enough))
job_settles (v ∷ more) j served left enough =
    elim (Bool-cases (j.circuit_enabled && not v.circuit.allowed)) [
      | inl shut ↦
          let enough' : max_attempts j ≤ j.attempts_made + (0 + all_sent j.circuit_enabled more) =
            rw shut at enough in
          rw (shut, defer-is_delayed v.now j v.circuit served.1)
            (job_settles more j served left (omega (arith, enough')))
      | inr lets ↦
          let enough' : max_attempts j ≤ j.attempts_made + (1 + all_sent j.circuit_enabled more) =
            rw lets at enough in
          let here = attempt v.now j v.goes in
          let over = attempt-is_delayed v.now j v.goes in
          elim (Bool-cases (is_retried j here.ended)) [
            | inl again ↦
                let last = retried-is_last j here.ended served.2 again in
                rw (lets, over, again)
                  (job_settles more (next j) served (ground (arith, last, left))
                    (omega (arith, enough')))
            | inr ends ↦
                rw (lets, over, ends)
                  (here, (refl, attempt-IsSettled v.now j v.goes served.0 served.2 ends))
          ]
    ]
