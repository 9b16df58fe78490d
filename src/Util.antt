-- ===== src/Util.antt =====
-- Package util: the logger.
pub mod Logger
pub mod Search
