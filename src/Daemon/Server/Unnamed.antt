-- ===== src/Daemon/Server/Unnamed.antt =====
-- A session without a name gets one that nothing has.
use hauntty.Prelude.{ℕ, Text}
use hauntty.Daemon.Server.{Server, put}
use hauntty.Daemon.Server.Handlers.{World}
use hauntty.Daemon.Server.Unused.{Unused}

-- The server with the new session beside what the other connections did.
abbrev pub entered : World → Server → ℕ → Text → Server
entered w s session name = record s {
  sessions = put name session (w.others s.sessions);
  files = w.other_files s.files;
}
