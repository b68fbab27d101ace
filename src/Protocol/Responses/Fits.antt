-- ===== src/Protocol/Responses/Fits.antt =====
-- When the fields of a response fit their widths on the wire.
use hauntty.Prelude.{List, Option, none, some, ◌≤◌, length, All}
use hauntty.Protocol.Encoding.{max_frame_size}
use hauntty.Protocol.Encoding.Primitives.{IsU16, IsU32, IsI32, IsShort, IsBlob}
use hauntty.Protocol.Messages.{
  SessionClient, Session, DaemonStatus, SessionStatus, Sessions, StatusResponse, ErrorReply, Output,
  Created, Attached, Exited, DumpResponse, PruneResponse, ClientsChanged,
}

pub record SessionClientFits (m : SessionClient) : Type 0 where
  pub client_id : IsShort m.client_id
  pub version : IsShort m.version

abbrev pub AreSessionClients : List SessionClient → Type 0
AreSessionClients clients = (length clients ≤ max_frame_size) × All SessionClientFits clients

pub record SessionFits (m : Session) : Type 0 where
  pub name : IsShort m.name
  pub state : IsShort m.state
  pub cols : IsU16 m.cols
  pub rows : IsU16 m.rows
  pub pid : IsU32 m.pid
  pub created_at : IsU32 m.created_at
  pub saved_at : IsU32 m.saved_at
  pub cwd : IsShort m.cwd
  pub clients : AreSessionClients m.clients

abbrev pub SessionsFits : Sessions → Type 0
SessionsFits m = (length m.sessions ≤ max_frame_size) × All SessionFits m.sessions

pub record DaemonStatusFits (m : DaemonStatus) : Type 0 where
  pub pid : IsU32 m.pid
  pub uptime : IsU32 m.uptime
  pub socket_path : IsShort m.socket_path
  pub running_count : IsU32 m.running_count
  pub dead_count : IsU32 m.dead_count
  pub version : IsShort m.version

pub record SessionStatusFits (m : SessionStatus) : Type 0 where
  pub name : IsShort m.name
  pub state : IsShort m.state
  pub cols : IsU16 m.cols
  pub rows : IsU16 m.rows
  pub pid : IsU32 m.pid
  pub cwd : IsShort m.cwd
  pub clients : AreSessionClients m.clients

abbrev pub OptionalFits : Option SessionStatus → Type 0
OptionalFits none = Unit
OptionalFits (some session) = SessionStatusFits session

abbrev pub StatusResponseFits : StatusResponse → Type 0
StatusResponseFits m = DaemonStatusFits m.daemon × OptionalFits m.session

pub record ErrorReplyFits (m : ErrorReply) : Type 0 where
  pub message : IsShort m.message

pub record OutputFits (m : Output) : Type 0 where
  pub payload : IsBlob m.payload

pub record CreatedFits (m : Created) : Type 0 where
  pub name : IsShort m.name
  pub pid : IsU32 m.pid

pub record AttachedFits (m : Attached) : Type 0 where
  pub name : IsShort m.name
  pub pid : IsU32 m.pid
  pub client_id : IsShort m.client_id
  pub cols : IsU16 m.cols
  pub rows : IsU16 m.rows
  pub screen_dump : IsBlob m.screen_dump
  pub cursor_row : IsU32 m.cursor_row
  pub cursor_col : IsU32 m.cursor_col

pub record ExitedFits (m : Exited) : Type 0 where
  pub exit_code : IsI32 m.exit_code

pub record DumpResponseFits (m : DumpResponse) : Type 0 where
  pub payload : IsBlob m.payload

pub record PruneResponseFits (m : PruneResponse) : Type 0 where
  pub count : IsU32 m.count

pub record ClientsChangedFits (m : ClientsChanged) : Type 0 where
  pub count : IsU16 m.count
  pub cols : IsU16 m.cols
  pub rows : IsU16 m.rows
