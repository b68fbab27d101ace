-- ===== src/Protocol/Responses/Decode.antt =====
-- internal/protocol/messages_response.go, and decodeSessionClients of messages.go: the `decode`
-- methods of the responses.
use hauntty.Prelude.{ℕ, List, Option, none, some, ltb, ◌==◌, if◌then◌else◌}
use hauntty.Protocol.Encoding.{
  Decoder, ◌>>=◌, pure, fail, max_frame_size, client_count_exceeds, session_count_exceeds, read_u8,
  read_u16, read_u32, read_i32, read_bool, read_string, read_bytes, read_times,
}
use hauntty.Protocol.Messages.{
  SessionClient, Session, DaemonStatus, SessionStatus, Sessions, StatusResponse, ErrorReply, Output,
  Created, Attached, Exited, DumpResponse, PruneResponse, ClientsChanged,
}

unfoldable pub decode_session_client : Decoder SessionClient
decode_session_client = do
  client_id ← read_string
  read_only ← read_bool
  version ← read_string
  pure (record { client_id = client_id; read_only = read_only; version = version })

-- What follows the count of clients.
unfoldable pub read_clients : ℕ → Decoder (List SessionClient)
unfolding decode_session_client
read_clients count =
    if ltb max_frame_size count
    then fail (client_count_exceeds count)
    else read_times count decode_session_client

unfoldable pub decode_session_clients : Decoder (List SessionClient)
unfolding read_clients
decode_session_clients = do count ← read_u32; read_clients count

unfoldable pub decode_error : Decoder ErrorReply
decode_error = do message ← read_string; pure (record { message = message })

unfoldable pub decode_output : Decoder Output
decode_output = do payload ← read_bytes; pure (record { payload = payload })

unfoldable pub decode_created : Decoder Created
decode_created = do name ← read_string; pid ← read_u32; pure (record { name = name; pid = pid })

unfoldable pub decode_attached : Decoder Attached
decode_attached = do
  name ← read_string
  pid ← read_u32
  client_id ← read_string
  cols ← read_u16
  rows ← read_u16
  screen_dump ← read_bytes
  cursor_row ← read_u32
  cursor_col ← read_u32
  alt_screen ← read_bool
  created ← read_bool
  pure (record {
    name = name;
    pid = pid;
    client_id = client_id;
    cols = cols;
    rows = rows;
    screen_dump = screen_dump;
    cursor_row = cursor_row;
    cursor_col = cursor_col;
    alt_screen = alt_screen;
    created = created;
  })

unfoldable pub decode_exited : Decoder Exited
decode_exited = do exit_code ← read_i32; pure (record { exit_code = exit_code })

unfoldable pub decode_dump_response : Decoder DumpResponse
decode_dump_response = do payload ← read_bytes; pure (record { payload = payload })

unfoldable pub decode_prune_response : Decoder PruneResponse
decode_prune_response = do count ← read_u32; pure (record { count = count })

unfoldable pub decode_clients_changed : Decoder ClientsChanged
decode_clients_changed = do
  count ← read_u16
  cols ← read_u16
  rows ← read_u16
  pure (record { count = count; cols = cols; rows = rows })

unfoldable pub decode_session : Decoder Session
decode_session = do
  name ← read_string
  state ← read_string
  cols ← read_u16
  rows ← read_u16
  pid ← read_u32
  created_at ← read_u32
  saved_at ← read_u32
  cwd ← read_string
  clients ← decode_session_clients
  pure (record {
    name = name;
    state = state;
    cols = cols;
    rows = rows;
    pid = pid;
    created_at = created_at;
    saved_at = saved_at;
    cwd = cwd;
    clients = clients;
  })

unfoldable pub read_sessions : ℕ → Decoder (List Session)
unfolding decode_session
read_sessions count =
    if ltb max_frame_size count
    then fail (session_count_exceeds count)
    else read_times count decode_session

unfoldable pub decode_sessions : Decoder Sessions
unfolding read_sessions
decode_sessions = do
  count ← read_u32
  sessions ← read_sessions count
  pure (record { sessions = sessions })

unfoldable pub decode_daemon_status : Decoder DaemonStatus
decode_daemon_status = do
  pid ← read_u32
  uptime ← read_u32
  socket_path ← read_string
  running_count ← read_u32
  dead_count ← read_u32
  version ← read_string
  pure (record {
    pid = pid;
    uptime = uptime;
    socket_path = socket_path;
    running_count = running_count;
    dead_count = dead_count;
    version = version;
  })

unfoldable pub decode_session_status : Decoder SessionStatus
decode_session_status = do
  name ← read_string
  state ← read_string
  cols ← read_u16
  rows ← read_u16
  pid ← read_u32
  cwd ← read_string
  clients ← decode_session_clients
  pure (record {
    name = name;
    state = state;
    cols = cols;
    rows = rows;
    pid = pid;
    cwd = cwd;
    clients = clients;
  })

unfoldable pub read_optional_session : ℕ → Decoder (Option SessionStatus)
unfolding decode_session_status
read_optional_session flag =
    if flag == 0 then pure none else do session ← decode_session_status; pure (some session)

unfoldable pub decode_status_response : Decoder StatusResponse
unfolding decode_daemon_status read_optional_session
decode_status_response = do
  daemon ← decode_daemon_status
  flag ← read_u8
  session ← read_optional_session flag
  pure (record { daemon = daemon; session = session })
