-- ===== src/System.antt =====
-- The whole program: what its processes may do to the database.
mod Combine
mod Handlers
mod OtherHandlers
mod AccountHandlers
pub mod Program
