-- ===== src/Config.antt =====
-- supervisor-lib/src/config: the values of the configuration file, and the parser.
pub mod Chain
pub mod Outside
pub mod Parser
pub mod Program
pub mod Size
pub mod Text
pub mod Types
pub mod Values
