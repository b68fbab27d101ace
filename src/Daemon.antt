-- ===== src/Daemon.antt =====
-- internal/daemon: the daemon that owns the sessions.
pub mod Resize
pub mod Clients
pub mod Session
pub mod Persist
pub mod Gather
pub mod Names
pub mod Terminal
pub mod Persister
pub mod Lifetime
pub mod Requests
pub mod Server
pub mod Connection
pub mod Startup
pub mod Env
