-- ===== src/Billing/Settlement.antt =====
-- src/exchange/internal/billing/tigerbeetle_settle.go, tigerbeetle_adapter.go and tigerbeetle/: the
-- billing adapter over the persisted ledger.
pub mod Wire
pub mod Client
pub mod Ids
pub mod Split
pub mod Lifecycle
pub mod Fees
pub mod Batch
pub mod Generations
mod Tests
mod ProbeTests
