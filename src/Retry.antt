-- ===== src/Retry.antt =====
-- utils/retry.util.ts, utils/backoff.util.ts and utils/external-api-retry.util.ts: bounded retries with
-- exponential delays, and which failures deserve one.
pub mod Backoff
pub mod Loop
pub mod Attempts
pub mod Transient
pub mod Causes
mod Tests
