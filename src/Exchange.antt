-- ===== src/Exchange.antt =====
-- src/exchange/internal/service: ExecuteTransaction and what it calls.
pub mod Kinds
pub mod Messages
pub mod Deps
pub mod Validate
pub mod Offers
pub mod Agents
pub mod Rows
pub mod Charges
pub mod Items
pub mod Pipeline
pub mod Responses
pub mod Replay
pub mod Admission
pub mod Batch
pub mod Envelope
pub mod Waiting
pub mod ItemCases
pub mod Runs
pub mod Answers
pub mod Ledger
pub mod Reads
pub mod UnderHold
pub mod Charged
pub mod Bills
pub mod Debits
pub mod Logged
pub mod Billed
pub mod PrepaidHolds
pub mod Prepaid
pub mod PrepaidLedger
pub mod Accounting
pub mod Durable
pub mod Retries
mod Shop
mod Tests
