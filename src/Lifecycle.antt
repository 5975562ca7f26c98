-- ===== src/Lifecycle.antt =====
-- The life of a deal in the database, whichever process moves it: the diagram of its statuses, the
-- transactions that the services run, and what every history of transactions keeps.
pub mod Diagram
pub mod Lawful
pub mod Sound
pub mod Step
pub mod Rows
pub mod Busy
pub mod DealUpdates
pub mod PostUpdates
pub mod History
pub mod Keys
pub mod Unique
