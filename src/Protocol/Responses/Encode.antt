-- ===== src/Protocol/Responses/Encode.antt =====
-- internal/protocol/messages_response.go, and encodeSessionClients of messages.go: the `encode`
-- methods of the responses.
use hauntty.Prelude.{List, [], ◌∷◌, Option, none, some, ◌%◌, ◌^◌, length, ok}
use hauntty.Protocol.Encoding.{
  Encoder, Writer, ◌>>◌, write_u8, write_u16, write_u32, write_i32, write_bool, write_string,
  write_bytes,
}
use hauntty.Protocol.Messages.{
  SessionClient, Session, DaemonStatus, SessionStatus, Sessions, StatusResponse, ErrorReply, Output,
  Created, Attached, Exited, DumpResponse, PruneResponse, ClientsChanged,
}

module _ {S : Type 0} (w : Writer S) where
  unfoldable pub encode_session_client : SessionClient → Encoder S
  encode_session_client m = do
    write_string w m.client_id
    write_bool w m.read_only
    write_string w m.version

  unfoldable pub encode_each_session_client : List SessionClient → Encoder S
  unfolding encode_session_client
  encode_each_session_client [] s = ok s
  encode_each_session_client (x ∷ xs) s =
      (encode_session_client x >> encode_each_session_client xs) s

  unfoldable pub encode_session_clients : List SessionClient → Encoder S
  unfolding encode_each_session_client
  encode_session_clients clients = do
    write_u32 w (length clients % 2 ^ 32)
    encode_each_session_client clients

  unfoldable pub encode_error : ErrorReply → Encoder S
  encode_error m = write_string w m.message

  unfoldable pub encode_output : Output → Encoder S
  encode_output m = write_bytes w m.payload

  unfoldable pub encode_created : Created → Encoder S
  encode_created m = do write_string w m.name; write_u32 w m.pid

  unfoldable pub encode_attached : Attached → Encoder S
  encode_attached m = do
    write_string w m.name
    write_u32 w m.pid
    write_string w m.client_id
    write_u16 w m.cols
    write_u16 w m.rows
    write_bytes w m.screen_dump
    write_u32 w m.cursor_row
    write_u32 w m.cursor_col
    write_bool w m.alt_screen
    write_bool w m.created

  unfoldable pub encode_exited : Exited → Encoder S
  encode_exited m = write_i32 w m.exit_code

  unfoldable pub encode_dump_response : DumpResponse → Encoder S
  encode_dump_response m = write_bytes w m.payload

  unfoldable pub encode_prune_response : PruneResponse → Encoder S
  encode_prune_response m = write_u32 w m.count

  unfoldable pub encode_clients_changed : ClientsChanged → Encoder S
  encode_clients_changed m = do write_u16 w m.count; write_u16 w m.cols; write_u16 w m.rows

  unfoldable pub encode_session : Session → Encoder S
  encode_session m = do
    write_string w m.name
    write_string w m.state
    write_u16 w m.cols
    write_u16 w m.rows
    write_u32 w m.pid
    write_u32 w m.created_at
    write_u32 w m.saved_at
    write_string w m.cwd
    encode_session_clients m.clients

  unfoldable pub encode_each_session : List Session → Encoder S
  unfolding encode_session
  encode_each_session [] s = ok s
  encode_each_session (x ∷ xs) s = (encode_session x >> encode_each_session xs) s

  unfoldable pub encode_sessions : Sessions → Encoder S
  unfolding encode_each_session
  encode_sessions m = do write_u32 w (length m.sessions % 2 ^ 32); encode_each_session m.sessions

  unfoldable pub encode_daemon_status : DaemonStatus → Encoder S
  encode_daemon_status m = do
    write_u32 w m.pid
    write_u32 w m.uptime
    write_string w m.socket_path
    write_u32 w m.running_count
    write_u32 w m.dead_count
    write_string w m.version

  unfoldable pub encode_session_status : SessionStatus → Encoder S
  encode_session_status m = do
    write_string w m.name
    write_string w m.state
    write_u16 w m.cols
    write_u16 w m.rows
    write_u32 w m.pid
    write_string w m.cwd
    encode_session_clients m.clients

  -- The flag byte, and the session if there is one.
  unfoldable pub encode_optional_session : Option SessionStatus → Encoder S
  unfolding encode_session_status
  encode_optional_session none = write_u8 w 0
  encode_optional_session (some session) = do write_u8 w 1; encode_session_status session

  unfoldable pub encode_status_response : StatusResponse → Encoder S
  unfolding encode_daemon_status encode_optional_session
  encode_status_response m = do encode_daemon_status m.daemon; encode_optional_session m.session
