-- ===== src/Logger.antt =====
-- util_lib/logger: the log lines, their buffers and the disk thread.
pub mod Pool
pub mod Levels
pub mod Line
pub mod Settings
pub mod Files
mod Delivery
mod Ending
mod Drain
mod Stamp
mod Sinks
mod Buffer
mod Lines
mod Text
mod Counts
mod Handover
mod Progress
mod Tests
mod LineTests
