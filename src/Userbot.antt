-- ===== src/Userbot.antt =====
-- The userbot's own storage.
pub mod State
pub mod StateLaws
