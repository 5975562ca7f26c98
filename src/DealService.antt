-- ===== src/DealService.antt =====
-- The deal service of the market: its operations, what they do to the database, and how signing
-- leads to approval.
mod Operations
pub mod Refines
pub mod Signing
unfoldable pub use Operations.*
