-- ===== src/Api.antt =====
-- api/moonx_binary_api.hpp: the messages of the gateway.
pub mod Layout
pub mod Requests
pub mod Responses
pub mod Notifications
pub mod RoundTrip
pub mod Types
pub mod Messages
pub mod Frames
pub mod Structs
mod Tests
