-- ===== src/Rpc.antt =====
-- supervisor-lib/src/rpc, and the handlers of supervisor-app/src/daemon/rpc_handlers.h.
pub mod Xmlrpc
pub mod Server
pub mod Connection
pub mod Handlers
pub mod Listener
pub mod Replies
