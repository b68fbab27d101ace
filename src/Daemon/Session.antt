-- ===== src/Daemon/Session.antt =====
-- The session of internal/daemon: its run loop over clients, terminal and pty.
pub mod Decimal
pub mod State
pub mod Steps
pub mod Streams
pub mod Clients
pub mod Writers
pub mod Start
pub mod Delivery
pub mod Feed
pub mod Guarantees
pub mod Numbers
pub mod Attach
mod Examples
pub mod Others
pub mod Sizes
pub mod Exit
