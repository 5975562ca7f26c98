-- ===== src/Observer.antt =====
-- internal/blockchain_observer: the blocks of the TON network that the observer visits, and the
-- deposits that it finds in them.
pub mod Blocks
pub mod Walk
pub mod Masters
pub mod Sending
pub mod Deposits
pub mod Queue
pub mod Notifier
pub mod Forgotten
pub mod KeyEvents
