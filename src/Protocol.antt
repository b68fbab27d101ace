-- ===== src/Protocol.antt =====
-- internal/protocol: the wire format of the messages between `ht` and the daemon.
pub mod Encoding
pub mod Messages
pub mod Requests
pub mod Responses
pub mod Codec
