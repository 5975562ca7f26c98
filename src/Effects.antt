-- ===== src/Effects.antt =====
-- How the services run: a call of a database, of Redis, of the Vault, of Telegram or of the TON
-- network may succeed, may be refused, or may take effect although its caller sees an error, and
-- it takes time. The schedule of a world says what becomes of the coming calls; a call beyond the
-- schedule succeeds at once. An operation is a function of the world, and it runs alone.
mod Monad
pub mod Laws
pub mod Steps
unfoldable pub use Monad.*
