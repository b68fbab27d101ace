-- ===== src/Client/Requests.antt =====
-- The requests of the client: internal/client/client.go and errors.go. A connection is the function from
-- the bytes that are sent to the bytes that come back.
pub mod Answered
pub mod Understood
mod Examples
use hauntty.Prelude.{
  ℕ, Bool, List, [], ◌∷◌, map, Option, none, some, Text, codes, Result, ok, err, bind,
}
use hauntty.Protocol.Encoding.{WireError, buffer}
use hauntty.Protocol.Messages.{Message, Created, DumpResponse, PruneResponse, StatusResponse}
use hauntty.Protocol.Messages
use hauntty.Protocol.Codec.Types.{type_byte, message_type}
use hauntty.Protocol.Codec.{write_message, read_message}

pub data RequestError : Type 0 where
  send_failed read_failed : Text → WireError → RequestError
  -- ServerError: the operation and the message of the daemon.
  server_error : Text → Text → RequestError
  unexpected_type : ℕ → RequestError

-- The type assertion of `request`: what it gives of a response, or nothing.
abbrev pub Assertion : Type 0 → Type 0
Assertion T = Message → Option T

abbrev pub checked : {T : Type 0} → ℕ → Option T → Result RequestError T
checked type none = err (unexpected_type type)
checked type (some typed) = ok typed

-- Behind the response: an error of the daemon, the type that was asked for, or another.
unfoldable pub response : {T : Type 0} → Assertion T → Text → Message → Result RequestError T
response asserted op (Message.error m) = err (server_error op m.message)
response asserted op msg = checked (type_byte (message_type msg)) (asserted msg)

unfoldable pub received :
    {T : Type 0} → Assertion T → Text → Result WireError (Message × List ℕ) → Result RequestError T
unfolding response
received asserted op (err e) = err (read_failed op e)
received asserted op (ok (msg, rest)) = response asserted op msg

abbrev pub exchanged :
    {T : Type 0}
    → Assertion T
    → Text
    → Result WireError (List ℕ)
    → (List ℕ → List ℕ)
    → Result RequestError T
exchanged asserted op (err e) peer = err (send_failed op e)
exchanged asserted op (ok bytes) peer = received asserted op (read_message (peer bytes))

unfoldable pub request :
    {T : Type 0} → Assertion T → Text → Message → (List ℕ → List ℕ) → Result RequestError T
unfolding received
request asserted op msg peer = exchanged asserted op (write_message buffer msg []) peer

abbrev pub as_ok : Assertion Unit
as_ok Message.okay = some tt
as_ok _ = none

abbrev pub as_created : Assertion Created
as_created (Message.created m) = some m
as_created _ = none

abbrev pub as_sessions : Assertion (List Messages.Session)
as_sessions (Message.sessions m) = some m.sessions
as_sessions _ = none

abbrev pub as_dump : Assertion DumpResponse
as_dump (Message.dump_response m) = some m
as_dump _ = none

abbrev pub as_prune : Assertion PruneResponse
as_prune (Message.prune_response m) = some m
as_prune _ = none

abbrev pub as_status : Assertion StatusResponse
as_status (Message.status_response m) = some m
as_status _ = none

pub record SessionClient : Type 0 where
  pub client_id : Text
  pub read_only : Bool
  pub version : Text

pub record Session : Type 0 where
  pub name : Text
  pub state : Text
  pub cols : ℕ
  pub rows : ℕ
  pub cwd : Text
  pub pid : ℕ
  pub created_at : ℕ
  pub saved_at : ℕ
  pub clients : List SessionClient

pub record DaemonStatus : Type 0 where
  pub pid : ℕ
  pub uptime : ℕ
  pub socket_path : Text
  pub running_count : ℕ
  pub dead_count : ℕ
  pub version : Text

pub record SessionStatus : Type 0 where
  pub name : Text
  pub state : Text
  pub cols : ℕ
  pub rows : ℕ
  pub pid : ℕ
  pub cwd : Text
  pub clients : List SessionClient

pub record Status : Type 0 where
  pub daemon : DaemonStatus
  pub session : Option SessionStatus

abbrev pub session_client_from_protocol : Messages.SessionClient → SessionClient
session_client_from_protocol client = record {
  client_id = client.client_id;
  read_only = client.read_only;
  version = client.version;
}

abbrev pub session_clients_from_protocol : List Messages.SessionClient → List SessionClient
session_clients_from_protocol clients = map session_client_from_protocol clients

abbrev pub session_from_protocol : Messages.Session → Session
session_from_protocol session = record {
  name = session.name;
  state = session.state;
  cols = session.cols;
  rows = session.rows;
  cwd = session.cwd;
  pid = session.pid;
  created_at = session.created_at;
  saved_at = session.saved_at;
  clients = session_clients_from_protocol session.clients;
}

abbrev pub sessions_from_protocol : List Messages.Session → List Session
sessions_from_protocol sessions = map session_from_protocol sessions

abbrev pub session_status_from_protocol : Option Messages.SessionStatus → Option SessionStatus
session_status_from_protocol none = none
session_status_from_protocol (some session) = some (record {
  name = session.name;
  state = session.state;
  cols = session.cols;
  rows = session.rows;
  pid = session.pid;
  cwd = session.cwd;
  clients = session_clients_from_protocol session.clients;
})

abbrev pub status_from_protocol : StatusResponse → Status
status_from_protocol resp = record {
  daemon = record {
    pid = resp.daemon.pid;
    uptime = resp.daemon.uptime;
    socket_path = resp.daemon.socket_path;
    running_count = resp.daemon.running_count;
    dead_count = resp.daemon.dead_count;
    version = resp.daemon.version;
  };
  session = session_status_from_protocol resp.session;
}

-- The methods of a `*Client`, over a connection.
abbrev pub Peer : Type 0
Peer = List ℕ → List ℕ

abbrev pub create_session : Messages.Create → Peer → Result RequestError Created
create_session opts = request as_created (codes "create") (Message.create opts)

unfoldable pub list_sessions : Bool → Peer → Result RequestError (List Session)
unfolding request
list_sessions include_clients peer =
    bind
      (request as_sessions (codes "list")
        (Message.list (record { include_clients = include_clients })) peer)
      (λ sessions. ok (sessions_from_protocol sessions))

abbrev pub kill : Text → Peer → Result RequestError Unit
kill name = request as_ok (codes "kill") (Message.kill (record { name = name }))

abbrev pub send : Text → List ℕ → Peer → Result RequestError Unit
send name bytes =
    request as_ok (codes "send") (Message.send (record { name = name; payload = bytes }))

abbrev pub send_key : Text → ℕ → ℕ → Peer → Result RequestError Unit
send_key name key mods =
    request as_ok (codes "send key")
      (Message.send_key (record { name = name; key = key; mods = mods }))

unfoldable pub dump : Text → ℕ → Peer → Result RequestError (List ℕ)
dump name format peer =
    bind
      (request as_dump (codes "dump") (Message.dump (record { name = name; format = format })) peer)
      (λ resp. ok resp.payload)

unfoldable pub prune : Peer → Result RequestError ℕ
prune peer = bind (request as_prune (codes "prune") Message.prune peer) (λ resp. ok resp.count)

unfoldable pub status : Text → Peer → Result RequestError Status
status name peer =
    bind (request as_status (codes "status") (Message.status (record { name = name })) peer)
      (λ resp. ok (status_from_protocol resp))

abbrev pub kick : Text → Text → Peer → Result RequestError Unit
kick name client_id =
    request as_ok (codes "kick") (Message.kick (record { name = name; client_id = client_id }))
