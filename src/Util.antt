-- ===== src/Util.antt =====
-- supervisor-lib/src/util: strings and security checks.
pub mod Escape
pub mod PidFile
pub mod Platform
pub mod Secure
