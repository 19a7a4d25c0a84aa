-- ===== src/Budgets.antt =====
-- modules/budgets: the periodic budgets that an organization, a project or an agent may spend.
pub mod Service
pub mod Reservations
pub mod Sharing
pub mod Agents
pub mod OpenSpend
pub mod AgentLimit
mod Tests
