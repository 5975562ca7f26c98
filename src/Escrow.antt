-- ===== src/Escrow.antt =====
-- The escrow service: amounts, the creation of escrow wallets, deposits, and payouts under a lock.
pub mod Amounts
mod Operations
mod DepositEvents
pub mod Laws
pub mod Payout
pub mod Locking
pub mod Runs
pub mod Deposits
pub mod Refines
unfoldable pub use Operations.*
unfoldable pub use DepositEvents.*
