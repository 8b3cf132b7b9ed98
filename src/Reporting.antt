-- ===== src/Reporting.antt =====
-- src/exchange/internal/service and src/exchange/internal/repo: usage reports and the obligations to
-- file them.
pub mod Report
pub mod Store
pub mod Usage
pub mod Overdue
pub mod Verdicts
pub mod Settled
pub mod Filing
pub mod Updates
pub mod Replayed
pub mod Retried
mod Tests
pub mod Consistent
