-- ===== src/Repository.antt =====
-- The Postgres tables of the market schema and the SQL that the repositories run on them, as
-- functions of the tables and of NOW(). A table lists its rows by ascending id.
mod Database
pub mod Deals
pub mod Locks
pub mod Posts
unfoldable pub use Database.*
