-- ===== src/FileConfig.antt =====
-- util_lib/file_config: configuration files.
pub mod Defs
pub mod Clean
pub mod Reading
pub mod Order
mod Keys
mod Tests
