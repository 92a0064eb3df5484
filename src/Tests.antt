-- ===== src/Tests.antt =====
-- Runs of the code on concrete input, over the programs of Data.
pub mod Data
pub mod Processes
pub mod Spawning
pub mod Managers
pub mod Writers
pub mod Texts
pub mod Daemons
pub mod Connections
pub mod Configs
pub mod Clients
pub mod Wires
pub mod PidFiles
pub mod Runs
pub mod Restarts
