-- ===== src/Sor.antt =====
-- src/exchange/internal/sor: the cache over the operator's system of record.
pub mod Cache
pub mod Calls
pub mod Fresh
mod Tests
