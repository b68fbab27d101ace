-- ===== src/Client.antt =====
-- The client, internal/client.
pub mod Connect
pub mod Keys
pub mod Requests
pub mod Attach
