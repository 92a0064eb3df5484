-- ===== src/Manager.antt =====
-- supervisor-lib/src/process/process_manager.{h,cpp}: the table of processes.
-- The operations are in Manager/Table (the map), Manager/Loop (SIGCHLD, the timer and the wait),
-- Manager/Control (start, stop, remove) and Manager/Sync (reload).
pub mod Table
pub mod Lookup
pub mod Loop
pub mod Control
pub mod Sync
pub mod Reaping
pub mod Stopped
pub mod Waiting
pub mod Shutdown
pub mod Consistency
pub mod Operations
pub mod Shape
pub mod Steady
pub mod Reload
