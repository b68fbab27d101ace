-- ===== src/Daemon/Requests/Examples.antt =====
-- Requests to a server with one session.
use hauntty.Prelude.{◌≡◌, refl, [], ◌∷◌, some, true, false, text_eq, codes, pos, ok}
use hauntty.Protocol.Messages.{Message}
use hauntty.Daemon.Server.{Server, find}
use hauntty.Daemon.Requests.{LiveSession, Host, handle_kill}
use hauntty.Daemon.Requests.Answers.{answer}
use hauntty.Daemon.Requests.Counts.{Counted, handle_status-handle_list}
use hauntty.Daemon.Requests.Inspect.{
  live_row, list_dead_names, dead_rows, dead_session_rows, handle_list, handle_status,
}
use hauntty.Daemon.Server.Handlers.{dead_names, dead_session_names}
use hauntty.Daemon.Requests.Replies.{Replied, expected_type, answer-Replied}

abbrev live : LiveSession
live = record {
  pid = 4711;
  is_running = true;
  size = (80, 24);
  created_at = pos 1764000000;
  cwd = [];
  client_info = [];
  kick_client = λ id. false;
  send_input = λ bytes. some (codes "closed");
  encode_client_key = λ key mods. ok [];
  dump_screen = λ format. ok [];
}

abbrev pub host : Host
host = record {
  os = record {
    directory = codes "hauntty" ∷ codes "state" ∷ [];
    reads = λ name. true;
    removes = λ name. true;
    writes = λ name. true;
  };
  world = record {
    starts = some 2;
    restores = λ state. some 2;
    attaches = λ session. true;
    others = λ sessions. sessions;
    other_files = λ files. files;
  };
  outside = record { reads_directory = true; draws = λ i. record { adjective = 0; noun = 0 } };
  session = λ session. live;
  texts = λ e. codes "failed";
  dump_dead = λ state format. ok [];
  since_started = pos 0;
  server_pid = 1;
  socket_path = codes "/run/hauntty.sock";
  version = codes "v1";
}

abbrev pub server : Server
server = record { sessions = (codes "ab", 1) ∷ []; files = []; persistent = true }

abbrev kill_ab : Message
kill_ab = Message.kill (record { name = codes "ab" })

answer-Replied_example : Replied (expected_type kill_ab) (answer host kill_ab server)
answer-Replied_example = answer-Replied host kill_ab server refl

killed : (handle_kill (record { name = codes "ab" }) server).reply ≡ Message.okay
unfolding handle_kill find text_eq
killed = refl

rows_shown :
    (handle_list host (record { include_clients = false }) server).reply
    ≡ Message.sessions (record { sessions = live_row host false (codes "ab", 1) ∷ [] })
unfolding handle_list dead_session_rows list_dead_names dead_session_names dead_names dead_rows
rows_shown = refl

handle_status-handle_list_example :
    Counted
      (handle_status host (record { name = codes "ab" }) server).reply
      (live_row host false (codes "ab", 1) ∷ [])
handle_status-handle_list_example =
    handle_status-handle_list host (record { name = codes "ab" })
      (record { include_clients = false }) server (live_row host false (codes "ab", 1) ∷ [])
      rows_shown
