-- ===== src/Process.antt =====
-- supervisor-lib/src/process/process.{h,cpp}: one supervised process.
-- Time points are nanoseconds of the steady clock, and an operation takes the time at which it
-- runs. What the operating system answers (pipes, fork, signals) is an argument as well.
-- Log messages are left out.
pub mod Types
pub mod Spawn
pub mod Descriptors
pub mod Life
pub mod Invariant
pub mod Reach
pub mod Backoff
pub mod Stopping
pub mod Command
pub mod Child
pub mod Capture
