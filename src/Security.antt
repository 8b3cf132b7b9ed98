-- ===== src/Security.antt =====
-- src/internal: what the services share to refuse a request that is sent twice.
pub mod Replay
pub mod Windows
pub mod Origins
mod Tests
