-- ===== src/Ctl.antt =====
-- supervisor-app/src/ctl/supervisorctl.h: the control program, the client of the daemon.
pub mod Call
pub mod Client
pub mod Faults
pub mod Commands
pub mod EndToEnd
pub mod Http
pub mod Infos
pub mod RoundTrip
pub mod Worlds
pub mod Reading
pub mod Started
pub mod Socket
