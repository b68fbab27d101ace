-- ===== src/Daemon/Session/Start.antt =====
-- The state that `startSession` of internal/daemon/session_lifecycle.go leaves to the loop.
use hauntty.Prelude.{ℕ, false, [], none, Text}
use hauntty.Daemon.Resize.{TermSize, pack_size}
use hauntty.Daemon.Clients.{Client}
use hauntty.Daemon.Session.State.{Loop}

-- An object that no client has yet.
abbrev pub blank : Client
blank = record {
  id = [];
  size = record { cols = 0; rows = 0; xpixel = 0; ypixel = 0 };
  version = [];
  read_only = false;
  out_ch = [];
  closed = false;
  write_done = false;
  final = none;
  conn_closed = false;
  sent = [];
  fault = false;
}

abbrev pub start_session : Text → ℕ → Text → TermSize → Loop
start_session name pid policy size = record {
  name = name;
  pid = pid;
  resize_policy = policy;
  size_val = pack_size size.cols size.rows;
  pty_size = size;
  heap = λ r. blank;
  next_ref = 0;
  clients = [];
  next_client_id = 0;
  feed_ch = [];
  term = [];
  pending_feed = none;
  pending_output = none;
  pending_clients = [];
  finished = false;
  accepted = [];
  started = λ r. 0;
}
