-- ===== src/Multicast.antt =====
-- util_lib/multicast: multicast sockets.
pub mod Errors
pub mod Defs
pub mod Open
mod Tests
