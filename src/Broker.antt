-- ===== src/Broker.antt =====
-- src/broker/internal: the choice among the offers of several exchanges, and the spending cap.
pub mod Offers
pub mod Selection
pub mod Budget
pub mod Order
pub mod Winners
pub mod Identities
pub mod Uniques
pub mod Interleaved
mod Tests
