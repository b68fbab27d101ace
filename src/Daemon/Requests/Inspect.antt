-- ===== src/Daemon/Requests/Inspect.antt =====
-- The list, the dump, the pruning and the status: internal/daemon/server_inspect.go, and the rows that
-- dead_state.go gives for saved sessions.
use hauntty.Prelude.{
  ℕ, ◌+◌, ◌-◌, ◌/◌, ◌%◌, ◌^◌, min, Bool, List, [], ◌∷◌, ◌++◌, Option, none, some, Text, codes, ℤ,
  pos, negsuc, if◌then◌else◌, Result, ok, err, length, map,
}
use hauntty.Protocol.Messages.{Message, ListRequest, Dump, Status, Session, SessionStatus}
use hauntty.Daemon.Persist.{SessionState}
use hauntty.Daemon.Terminal.{terminal_dump_format}
use hauntty.Daemon.Server.{Server, ServerError, io_failed, find, is_empty, read_dead_session}
use hauntty.Daemon.Server.Handlers.{dead_session_names, prune_dead_sessions}
use hauntty.Daemon.Requests.{Host, Handled, write_error, replies, not_found}

-- A conversion to uint32.
abbrev pub to_u32 : ℤ → ℕ
to_u32 (pos n) = n % 2 ^ 32
to_u32 (negsuc n) = 2 ^ 32 - 1 - n % 2 ^ 32

abbrev pub state_running : Text
state_running = codes "running"

abbrev pub state_dead : Text
state_dead = codes "dead"

abbrev pub state_of : Bool → Text
state_of is_running = if is_running then state_running else state_dead

abbrev pub live_row : Host → Bool → Text × ℕ → Session
live_row h include_clients (name, session) = record {
  name = name;
  state = state_of (h.session session).is_running;
  cols = (h.session session).size.0;
  rows = (h.session session).size.1;
  pid = (h.session session).pid;
  created_at = to_u32 (h.session session).created_at;
  saved_at = 0;
  cwd = (h.session session).cwd;
  clients = if include_clients then (h.session session).client_info else [];
}

abbrev pub dead_row : Text → SessionState → Session
dead_row name state = record {
  name = name;
  state = state_dead;
  cols = state.cols;
  rows = state.rows;
  pid = 0;
  created_at = 0;
  saved_at = to_u32 state.saved_at;
  cwd = [];
  clients = [];
}

-- deadSessionNames: without persistence the directory is not read.
unfoldable pub list_dead_names : Host → Server → Result ServerError (List Text)
list_dead_names h s =
    if s.persistent
    then (if h.outside.reads_directory then ok (dead_session_names s) else err io_failed)
    else ok []

abbrev pub add_row :
    Text
    → Result ServerError (Option SessionState)
    → Result ServerError (List Session)
    → Result ServerError (List Session)
add_row name (err e) rest = err e
add_row name (ok none) rest = rest
add_row name (ok (some state)) (err e) = err e
add_row name (ok (some state)) (ok rows) = ok (dead_row name state ∷ rows)

-- The loop of deadSessionRows; the first state that cannot be read ends it.
unfoldable pub dead_rows : Host → Server → List Text → Result ServerError (List Session)
dead_rows h s [] = ok []
dead_rows h s (name ∷ names) = add_row name (read_dead_session h.os name s) (dead_rows h s names)

abbrev pub rows_of :
    Host → Server → Result ServerError (List Text) → Result ServerError (List Session)
rows_of h s (err e) = err e
rows_of h s (ok names) = dead_rows h s names

unfoldable pub dead_session_rows : Host → Server → Result ServerError (List Session)
dead_session_rows h s = rows_of h s (list_dead_names h s)

abbrev pub sessions_reply : Host → Bool → Result ServerError (List Session) → Server → Handled
sessions_reply h include_clients (err e) s = write_error s (h.texts e)
sessions_reply h include_clients (ok dead) s =
    replies s
      (Message.sessions (record { sessions = map (live_row h include_clients) s.sessions ++ dead }))

unfoldable pub handle_list : Host → ListRequest → Server → Handled
unfolding dead_session_rows
handle_list h m s = sessions_reply h m.include_clients (dead_session_rows h s) s

abbrev pub dump_reply : Result Text (List ℕ) → Server → Handled
dump_reply (err text) s = write_error s text
dump_reply (ok bytes) s = replies s (Message.dump_response (record { payload = bytes }))

-- dumpDeadSession; `none` is a name without a saved state.
abbrev pub dump_saved :
    Host → ℕ → Result ServerError (Option SessionState) → Option (Result Text (List ℕ))
dump_saved h format (err e) = some (err (h.texts e))
dump_saved h format (ok none) = none
dump_saved h format (ok (some state)) =
    some (elim (h.dump_dead state (terminal_dump_format format)) [
      | ok bytes ↦ ok bytes
      | err e ↦ err (h.texts e)
    ])

unfoldable pub handle_dump : Host → Dump → Server → Handled
handle_dump h m s = elim (find m.name s.sessions) [
  | some session ↦ dump_reply ((h.session session).dump_screen (terminal_dump_format m.format)) s
  | none ↦ elim (dump_saved h m.format (read_dead_session h.os m.name s)) [
    | some dumped ↦ dump_reply dumped s
    | none ↦ not_found s
  ]
]

abbrev pub pruned_reply : Host → Server × Result ServerError ℕ → Handled
pruned_reply h (s, err e) = write_error s (h.texts e)
pruned_reply h (s, ok count) = replies s (Message.prune_response (record { count = count }))

unfoldable pub handle_prune : Host → Server → Handled
unfolding list_dead_names
handle_prune h s = elim (list_dead_names h s) [
  | err e ↦ write_error s (h.texts e)
  | ok names ↦ pruned_reply h (prune_dead_sessions h.os s)
]

-- The loop of statusSnapshot; both counts are uint32.
unfoldable pub count_sessions : Host → List (Text × ℕ) → ℕ × ℕ → ℕ × ℕ
count_sessions h [] counts = counts
count_sessions h ((name, session) ∷ rest) (running, dead) = count_sessions h rest (
    if (h.session session).is_running
    then ((running + 1) % 2 ^ 32, dead)
    else (running, (dead + 1) % 2 ^ 32))

abbrev pub status_of : Host → Text → ℕ → SessionStatus
status_of h name session = record {
  name = name;
  state = state_of (h.session session).is_running;
  cols = (h.session session).size.0;
  rows = (h.session session).size.1;
  pid = (h.session session).pid;
  cwd = (h.session session).cwd;
  clients = (h.session session).client_info;
}

unfoldable pub session_status : Host → Text → Server → Option SessionStatus
session_status h name s = if is_empty name then none else elim (find name s.sessions) [
  | none ↦ none
  | some session ↦ some (status_of h name session)
]

-- `max(since, 0)` in seconds, at most MaxUint32.
abbrev pub uptime_seconds : ℤ → ℕ
uptime_seconds (pos n) = min (n / 1_000_000_000) (2 ^ 32 - 1)
uptime_seconds (negsuc n) = 0

abbrev pub status_reply :
    Host → ℕ × ℕ → Option SessionStatus → Result ServerError (List Text) → Server → Handled
status_reply h counts session (err e) s = write_error s (h.texts e)
status_reply h (running, dead) session (ok names) s = replies s (
    Message.status_response (record {
      daemon = record {
        pid = h.server_pid % 2 ^ 32;
        uptime = uptime_seconds h.since_started;
        socket_path = h.socket_path;
        running_count = running;
        dead_count = (dead + length names % 2 ^ 32) % 2 ^ 32;
        version = h.version;
      };
      session = session;
    }))

unfoldable pub handle_status : Host → Status → Server → Handled
unfolding count_sessions session_status list_dead_names
handle_status h m s =
    status_reply h (count_sessions h s.sessions (0, 0)) (session_status h m.name s)
      (list_dead_names h s) s
