-- ===== src/PostService.antt =====
-- The posts of paid deals: sending one, checking that it stays, and settling the deal after it.
mod Operations
pub mod Sending
pub mod Settling
pub mod Checking
pub mod Recording
pub mod SenderSteps
unfoldable pub use Operations.*
