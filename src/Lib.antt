-- ===== src/Lib.antt =====
-- astroid-api: a NestJS back end that governs what AI agents may spend on Stellar. This library models
-- the parts of it that decide. A payment intent is checked by the policy engine and the agent's budget;
-- what a policy flags becomes a proposal that people approve; calls of Stellar run behind the circuit
-- breaker; each important action is written to the audit chain, and events go to webhooks, whose
-- endpoints have circuits of their own. Transactions is where they meet: it uses
-- the model of the budgets and takes the answers of the other services as arguments. SpendingLimits uses the
-- model of the policies.
--
-- Parts, and the files that model them (paths from the repository's root):
--
-- - src/utils/stream-split-calculator.util.ts: Split. The amounts are bigint and are exact integers
--   here; `negative` is a total below zero. A basis-points value is told apart only as far as the
--   validation does (Number). The sorted array shares its objects with the unsorted one, so the loop
--   over it writes into the unsorted list by position.
-- - src/common/circuit-breaker/circuit-breaker.ts: CircuitBreaker. The class's fields are the record
--   Breaker. `execute` awaits the operation, so it is two synchronous parts: `start`, and `on_success`
--   or `on_failure`; a list of events is one order in which the event loop may run the parts of any
--   number of calls. Time is a number of milliseconds, read once in each part. Listeners of the
--   emitted events are not modelled; what is emitted is returned.
-- - src/modules/policies/policy.engine.ts and policy.types.ts: Policy. An amount is a
--   natural number that stands for a double, in the order of the doubles; what depends on more than the
--   order is a part of the parameter Runtime, as whether a rounded sum exceeds a limit. Below 2^29, the
--   units of 10^-7 of Stellar are such numbers, and SpendingLimits counts in them. Messages and
--   policy names of violations are left out.
--   Case conversion, the printing and parsing of numbers and Intl.DateTimeFormat are parts of
--   Runtime too; UTC hours and weekdays are computed from the epoch. The array sort is a stable insertion
--   sort. An absent list of rules, transfers or asset limits is the empty list; the flag
--   `empty_transfers` tells an empty list of transfers from an absent one.
-- - src/modules/webhooks/services/webhook-circuit.service.ts: WebhookCircuit. The circuit of one
--   endpoint is its database row, if it exists. A method is its sequence of atomic database calls; an
--   Environment says what other workers did to the row before each call, because the endpoint lock is
--   best-effort. An exception of `update` on a row that is gone is the outcome `none`.
-- - src/common/throttler/sliding-window.store.ts: SlidingWindow. The per-process store; `hit` has no
--   await inside and is one step. Comparisons with `now - windowMs` are written as sums.
-- - src/utils/ttl-cache.util.ts: TtlCache. The Map is its list of entries in insertion order, the clock
--   an argument. `getOrSet` is two synchronous parts, `get_or_set` before its await and `set` after
--   it; a loader that fails does nothing to the cache. The eviction loop has the number of entries
--   as fuel, which is enough because each turn removes one.
-- - src/modules/audit/audit-hash.service.ts and record of audit.service.ts: Audit. The rows of one
--   organization are the list that the database returns, oldest first; the archive's boundary hash is
--   an argument. SHA-256, JSON.stringify, toISOString and the sanitizer are the parameter Outside.
--   `record` takes the time it reads and the database's default creation time as two arguments.
-- - src/modules/approvals/approval.service.ts, with approval.repository.ts: Approvals. The rows of one
--   proposal are the record Desk; `decide` is its reads and checks and then `commit`, so that two calls
--   can overlap between them. The transaction service is an argument that returns or throws.
-- - src/modules/budgets/services/rolling-window-budget.service.ts: RollingBudget. The check is one step,
--   since it runs under the agent's lock on one snapshot; the enabled budgets and the agent's
--   transactions are arguments, amounts count units of 10^-7.
-- - prisma/schema.prisma: Schema, the enumerations that several parts share.
-- - src/modules/transactions/: Transactions. `createTransaction` is one request that nothing overlaps, with the
--   answers of the other services as the record Answers and the budgets as the model of Budgets; `execute`
--   and `cancel` are also cut at their database and network calls, and a step relation lets any number
--   of calls overlap on one row, where a payment call that throws may have been accepted or not. The idempotency record of one key is a slot with its own step relation.
--   A string is the list of its code points in the validator; StrKey's checks are arguments.
-- - src/modules/budgets/budget.service.ts and budget.repository.ts: Budgets. The rows are a map from identifiers;
--   `allocate` is cut at its lock. Amounts count units of 10^-7, in which the database's sums and
--   comparisons are exact.
-- - src/utils/retry.util.ts, backoff.util.ts and external-api-retry.util.ts: Retry. How each attempt ends is a
--   function of its number; the loop runs on the number of attempts left, which is its bound in the
--   source. Math.random is an argument, a fraction.
-- - src/modules/webhooks/webhooks.processor.ts and utils/failure-classification.ts: WebhookDelivery. `process` is
--   one attempt, from the circuit's decision and the way the request goes to the row and the job's end.
--   BullMQ's loop is a list of visits to the job: a deferral puts the same job back, a failure counts as
--   an attempt. A row is what `persistState` is called with; it swallows the errors of the write. That
--   `beforeAttempt` throws is not modelled.
-- - src/common/shutdown/shutdown-coordinator.service.ts: Shutdown. What is waited for is a value that says when
--   and how it ends, or that it never does; a step yields the time it takes and its failures.
-- - src/modules/risk/risk.engine.ts, risk.types.ts and rules/: Risk. Scores are exact fractions in place of
--   doubles, weights are whole numbers, and a configuration is complete, as `mergeConfig` makes it.
-- - src/modules/policies/policy.service.ts: Policy.Currencies, the evaluation of policies with different base
--   currencies; what the price oracle answers is an argument.
-- - src/modules/transactions/spending-limit.service.ts: SpendingLimits. It uses the evaluation of Policy on the rows
--   of the transactions; the date of a day is an argument. In Day the row of a transaction that is allowed is
--   there, and submitted, when the next is checked.
-- - src/common/locks/redis-lock.util.ts: RedisLock, over a record of what Redis does to one key; what is relied on
--   of it is a hypothesis. `acquire` runs on the number of attempts left.
--
-- Not modelled: controllers, DTO classes, most guards, logging and metrics, which only pass on or record
-- what the parts decide; of the other modules, those that the parts above do not name;
-- the database, queues, Redis, the Stellar SDK and cryptography, which are not part of the repository.
pub mod Approvals
pub mod Audit
pub mod Budgets
pub mod CircuitBreaker
pub mod Common
pub mod Policy
pub mod RedisLock
pub mod Retry
pub mod Risk
pub mod RollingBudget
pub mod Schema
pub mod Shutdown
pub mod SlidingWindow
pub mod SpendingLimits
pub mod Split
pub mod Transactions
pub mod TtlCache
pub mod WebhookCircuit
pub mod WebhookDelivery
