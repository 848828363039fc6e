-- ===== src/Tcp.antt =====
-- util_lib/tcp: connections, clients and servers.
pub mod Errors
pub mod Connection
pub mod Client
pub mod Server
pub mod WriteData
pub mod Connect
pub mod Listen
mod Tests
pub mod Sample
