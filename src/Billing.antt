-- ===== src/Billing.antt =====
-- src/exchange/internal/billing: the money movement of Exchange transactions.
pub mod Types
pub mod InMemory
pub mod Money
pub mod Settlement
mod Tests
