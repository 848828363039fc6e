-- ===== src/Sample.antt =====
-- src/sample_test_client_moonx.cpp: the sample client of the gateway.
pub mod Session
pub mod Prompts
pub mod Sending
pub mod Console
pub mod Receiving
mod Dispatch
mod Returns
pub mod Start
mod Steps
mod Events
mod Tests
