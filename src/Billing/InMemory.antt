-- ===== src/Billing/InMemory.antt =====
-- src/exchange/internal/billing/inmemory_adapter.go: the prepaid adapter. State, Holds and Funds
-- hold its state and methods; the other modules prove what the methods keep.
pub mod State
pub mod Holds
pub mod Funds
pub mod Step
pub mod Covered
pub mod SolventHolds
pub mod Solvent
pub mod Capped
pub mod CappedRuns
pub mod Marks
pub mod Replays
pub mod Keyed
pub mod KeyedRuns
pub mod LiveHolds
mod Tests
