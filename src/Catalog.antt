-- ===== src/Catalog.antt =====
-- src/exchange/internal/service: what a publisher's push may add to the catalog.
pub mod Uris
pub mod Unique
pub mod Complete
pub mod Push
pub mod Keys
pub mod Stored
mod Tests
