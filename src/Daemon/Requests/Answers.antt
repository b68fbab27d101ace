-- ===== src/Daemon/Requests/Answers.antt =====
-- The reply to a creation, of internal/daemon/server_attach.go, and the switch of handleConn over the
-- requests.
use hauntty.Prelude.{Bool, Option, none, some, Text, Result, ok, err}
use hauntty.Protocol.Messages.{Message, Create}
use hauntty.Daemon.Server.{Server, ServerError}
use hauntty.Daemon.Server.Handlers.{Answer, handle_create}
use hauntty.Daemon.Server.Reserve.{reserve_session_name}
use hauntty.Daemon.Requests.{
  Host, Handled, write_error, replies, handle_kick, handle_kill, handle_send, handle_send_key,
}
use hauntty.Daemon.Requests.Inspect.{handle_list, handle_dump, handle_prune, handle_status}

abbrev pub created_reply : Host → Text → Answer → Handled
created_reply h name (s, err e) = write_error s (h.texts e)
created_reply h name (s, ok session) =
    replies s (Message.created (record { name = name; pid = (h.session session).pid }))

abbrev pub create_named : Host → Bool → Server → Result ServerError (Option Text) → Option Handled
create_named h force s (err e) = some (write_error s (h.texts e))
create_named h force s (ok none) = none
create_named h force s (ok (some name)) =
    some (created_reply h name (handle_create h.os h.world name force s))

-- handleCreate with its reply; `none` would be a search for a name that runs out of fuel.
unfoldable pub reply_create : Host → Create → Server → Option Handled
reply_create h m s = create_named h m.force s (reserve_session_name h.outside m.name s)

-- The switch of handleConn over the requests that it answers with one message.
unfoldable pub answer : Host → Message → Server → Option Handled
answer h (Message.create m) s = reply_create h m s
answer h (Message.list m) s = some (handle_list h m s)
answer h (Message.kill m) s = some (handle_kill m s)
answer h (Message.send m) s = some (handle_send h m s)
answer h (Message.send_key m) s = some (handle_send_key h m s)
answer h (Message.dump m) s = some (handle_dump h m s)
answer h Message.prune s = some (handle_prune h s)
answer h (Message.status m) s = some (handle_status h m s)
answer h (Message.kick m) s = some (handle_kick h m s)
answer h _ s = none
