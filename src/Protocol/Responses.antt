-- ===== src/Protocol/Responses.antt =====
-- internal/protocol/messages_response.go, and the lists of clients of messages.go.
pub mod Encode
pub mod Decode
pub mod Fits
pub mod RoundTrip
pub mod Ranges
