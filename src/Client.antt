-- ===== src/Client.antt =====
-- src/binary_gateway_load_test_client.cpp: the load test client.
pub mod Timers
mod Levels
pub mod Session
pub mod Sending
pub mod Receiving
pub mod Json
pub mod Structures
pub mod Requests
mod Fields
pub mod Setup
pub mod Console
mod Loaded
mod Commands
pub mod Start
mod Started
mod Watch
mod Batches
mod Dispatch
pub mod Tests
mod ConsoleTests
