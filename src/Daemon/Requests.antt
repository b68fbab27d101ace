-- ===== src/Daemon/Requests.antt =====
-- The requests of control mode: internal/daemon/server_control.go, with server_inspect.go in Inspect. A handler gives the server behind
-- it, what it does to a session, and the message that it writes. What a session answers, the texts of
-- errors (with what the code puts before them), and the clock are parameters; the sessions come in one
-- order of Go's map.
pub mod Inspect
pub mod Answers
pub mod Replies
pub mod Saved
pub mod Counts
pub mod Examples
use hauntty.Prelude.{
  ℕ, ◌+◌, ◌-◌, ◌/◌, ◌%◌, ◌^◌, min, Bool, ◌||◌, List, [], ◌∷◌, ◌++◌, Option, none, some, Text, codes,
  ℤ, pos, negsuc, if◌then◌else◌, Result, ok, err, length, map,
}
use hauntty.Protocol.Messages.{
  Message, Create, Kick, Kill, Send, SendKey, ListRequest, Dump, Status, Session, SessionClient,
  SessionStatus,
}
use hauntty.Daemon.Persist.{SessionState}
use hauntty.Daemon.Terminal.{TerminalFormat, terminal_dump_format}
use hauntty.Daemon.Server.{Server, Os, ServerError, io_failed, find, is_empty, read_dead_session}
use hauntty.Daemon.Server.Handlers.{
  World, Answer, dead_session_names, handle_create, prune_dead_sessions,
}
use hauntty.Daemon.Server.Reserve.{Outside, reserve_session_name}

-- What the methods of a `*Session` answer. `cwd` is "" where the terminal has none or fails.
pub record LiveSession : Type 0 where
  pub pid : ℕ
  pub is_running : Bool
  pub size : ℕ × ℕ
  pub created_at : ℤ
  pub cwd : Text
  pub client_info : List SessionClient
  pub kick_client : Text → Bool
  -- `none` is no error.
  pub send_input : List ℕ → Option Text
  pub encode_client_key : ℕ → ℕ → Result Text (List ℕ)
  pub dump_screen : TerminalFormat → Result Text (List ℕ)

pub record Host : Type 0 where
  pub os : Os
  pub world : World
  pub outside : Outside
  pub session : ℕ → LiveSession
  pub texts : ServerError → Text
  -- dumpDeadTerminalState: a terminal that is restored from the state, and its dump.
  pub dump_dead : SessionState → TerminalFormat → Result ServerError (List ℕ)
  -- time.Since(startedAt), in nanoseconds.
  pub since_started : ℤ
  pub server_pid : ℕ
  pub socket_path : Text
  pub version : Text

-- What a handler does to a session.
pub data Effect : Type 0 where
  kicked : ℕ → Text → Effect
  killed : ℕ → Effect
  sent : ℕ → List ℕ → Effect

-- Each path of a handler ends in one call of WriteMessage, with `reply`; if its encoding fails, nothing
-- is written and the failure is logged (`written` of Client/Requests/Answered).
pub record Handled : Type 0 where
  pub server : Server
  pub effects : List Effect
  pub reply : Message

abbrev pub write_error : Server → Text → Handled
write_error s text = record {
  server = s;
  effects = [];
  reply = Message.error (record { message = text });
}

abbrev pub replies : Server → Message → Handled
replies s msg = record { server = s; effects = []; reply = msg }

abbrev pub write_ok : Server → List Effect → Handled
write_ok s effects = record { server = s; effects = effects; reply = Message.okay }

abbrev pub not_found : Server → Handled
not_found s = write_error s (codes "session not found")

unfoldable pub handle_kick : Host → Kick → Server → Handled
handle_kick h m s =
    if is_empty m.name || is_empty m.client_id
    then write_error s (codes "name and client ID required")
    else elim (find m.name s.sessions) [
      | none ↦ not_found s
      | some session ↦
          if (h.session session).kick_client m.client_id
          then write_ok s (kicked session m.client_id ∷ [])
          else write_error s (codes "client not found")
    ]

unfoldable pub handle_kill : Kill → Server → Handled
handle_kill m s = elim (find m.name s.sessions) [
  | none ↦ not_found s
  | some session ↦ write_ok s (killed session ∷ [])
]

-- sendInput, and its error if it has one.
abbrev pub send_to : ℕ → List ℕ → Option Text → Server → Handled
send_to session bytes none s = write_ok s (sent session bytes ∷ [])
send_to session bytes (some text) s = write_error s text

unfoldable pub handle_send : Host → Send → Server → Handled
handle_send h m s = elim (find m.name s.sessions) [
  | none ↦ not_found s
  | some session ↦ send_to session m.payload ((h.session session).send_input m.payload) s
]

-- A key without bytes is not sent.
abbrev pub send_encoded : Host → ℕ → Result Text (List ℕ) → Server → Handled
send_encoded h session (err text) s = write_error s text
send_encoded h session (ok []) s = write_ok s []
send_encoded h session (ok (b ∷ bytes)) s =
    send_to session (b ∷ bytes) ((h.session session).send_input (b ∷ bytes)) s

unfoldable pub handle_send_key : Host → SendKey → Server → Handled
handle_send_key h m s = elim (find m.name s.sessions) [
  | none ↦ not_found s
  | some session ↦ send_encoded h session ((h.session session).encode_client_key m.key m.mods) s
]
