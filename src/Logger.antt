-- ===== src/Logger.antt =====
-- supervisor-lib/src/logger.
pub mod Levels
pub mod Sinks
pub mod Names
pub mod Writer
