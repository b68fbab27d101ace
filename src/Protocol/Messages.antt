-- ===== src/Protocol/Messages.antt =====
-- internal/protocol/messages.go, messages_request.go and messages_response.go: the messages as data.
-- A Go string is its bytes; `Data` is `payload`, and the message types `List`, `OK` and `Error` are
-- `ListRequest`, `Message.okay` and `ErrorReply`.
use hauntty.Prelude.{ℕ, Bool, List, Option, Text, ℤ}

pub record Create : Type 0 where
  pub name : Text
  pub command : List Text
  pub env : List Text
  pub cwd : Text
  pub scrollback : ℕ
  pub force : Bool

pub record Attach : Type 0 where
  pub name : Text
  pub command : List Text
  pub env : List Text
  pub cwd : Text
  pub cols : ℕ
  pub rows : ℕ
  pub xpixel : ℕ
  pub ypixel : ℕ
  pub read_only : Bool
  pub restore : Bool
  pub scrollback : ℕ

pub record Input : Type 0 where
  pub payload : List ℕ

pub record Resize : Type 0 where
  pub cols : ℕ
  pub rows : ℕ
  pub xpixel : ℕ
  pub ypixel : ℕ

pub record ListRequest : Type 0 where
  pub include_clients : Bool

pub record Kill : Type 0 where
  pub name : Text

pub record Send : Type 0 where
  pub name : Text
  pub payload : List ℕ

pub record SendKey : Type 0 where
  pub name : Text
  pub key : ℕ
  pub mods : ℕ

pub record Dump : Type 0 where
  pub name : Text
  pub format : ℕ

pub record Kick : Type 0 where
  pub name : Text
  pub client_id : Text

pub record Status : Type 0 where
  pub name : Text

pub record SessionClient : Type 0 where
  pub client_id : Text
  pub read_only : Bool
  pub version : Text

pub record Session : Type 0 where
  pub name : Text
  pub state : Text
  pub cols : ℕ
  pub rows : ℕ
  pub pid : ℕ
  pub created_at : ℕ
  pub saved_at : ℕ
  pub cwd : Text
  pub clients : List SessionClient

pub record DaemonStatus : Type 0 where
  pub pid : ℕ
  pub uptime : ℕ
  pub socket_path : Text
  pub running_count : ℕ
  pub dead_count : ℕ
  pub version : Text

pub record SessionStatus : Type 0 where
  pub name : Text
  pub state : Text
  pub cols : ℕ
  pub rows : ℕ
  pub pid : ℕ
  pub cwd : Text
  pub clients : List SessionClient

pub record ErrorReply : Type 0 where
  pub message : Text

pub record Output : Type 0 where
  pub payload : List ℕ

pub record Created : Type 0 where
  pub name : Text
  pub pid : ℕ

pub record Attached : Type 0 where
  pub name : Text
  pub pid : ℕ
  pub client_id : Text
  pub cols : ℕ
  pub rows : ℕ
  pub screen_dump : List ℕ
  pub cursor_row : ℕ
  pub cursor_col : ℕ
  pub alt_screen : Bool
  pub created : Bool

pub record Exited : Type 0 where
  pub exit_code : ℤ

pub record DumpResponse : Type 0 where
  pub payload : List ℕ

pub record PruneResponse : Type 0 where
  pub count : ℕ

pub record ClientsChanged : Type 0 where
  pub count : ℕ
  pub cols : ℕ
  pub rows : ℕ

pub record StatusResponse : Type 0 where
  pub daemon : DaemonStatus
  pub session : Option SessionStatus

pub record Sessions : Type 0 where
  pub sessions : List Session

-- A value of the interface `Message`.
pub data Message : Type 0 where
  create : Create → Message
  attach : Attach → Message
  input : Input → Message
  resize : Resize → Message
  list : ListRequest → Message
  kill : Kill → Message
  send : Send → Message
  send_key : SendKey → Message
  dump : Dump → Message
  kick : Kick → Message
  status : Status → Message
  detach prune okay : Message
  error : ErrorReply → Message
  output : Output → Message
  created : Created → Message
  attached : Attached → Message
  exited : Exited → Message
  dump_response : DumpResponse → Message
  prune_response : PruneResponse → Message
  clients_changed : ClientsChanged → Message
  sessions : Sessions → Message
  status_response : StatusResponse → Message
