-- ===== src/Transactions.antt =====
-- modules/transactions: the pipeline that creates, executes and cancels an agent's payments.
pub mod Execution
pub mod Payments
pub mod Outcomes
pub mod Validator
pub mod Memos
pub mod Creation
pub mod Governance
pub mod Created
pub mod Idempotency
pub mod OncePerKey
pub mod Replays
mod Tests
