-- ===== src/Timestamp.antt =====
-- util_lib/time: times of the day.
pub mod Text
pub mod RoundTrip
pub mod Validate
pub mod Clock
pub mod Date
mod DateText
pub mod Cache
pub mod Epoch
mod Tests
mod ClockTests
