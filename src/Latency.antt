-- ===== src/Latency.antt =====
-- util_lib/latency: counts of latencies.
pub mod Defs
pub mod Ranges
mod Tests
