-- ===== src/Daemon/Requests/Replies.antt =====
-- The reply to a request is of the type that the client waits for.
use hauntty.Prelude.{
  ℕ, ◌≡◌, refl, ap, ◌⊎◌, inl, inr, Bool, Bool-cases, true, ◌||◌, List, [], ◌∷◌, Option,
  Option-cases, none, some, Text, Result, Result-cases, ok, err,
}
use hauntty.Protocol.Messages.{
  Message, Create, Kick, Kill, Send, SendKey, ListRequest, Dump, Status, Session,
}
use hauntty.Protocol.Codec.Types.{
  MessageType, type_okay, type_error, type_sessions, type_dump_response, type_prune_response,
  type_status_response, type_created, message_type,
}
use hauntty.Daemon.Names.Unique.{generate_unique_name-Free}
use hauntty.Daemon.Server.{Server, ServerError, find, is_empty, read_dead_session}
use hauntty.Daemon.Server.Handlers.{Answer, handle_create, prune_dead_sessions}
use hauntty.Daemon.Server.Reserve.{reserve_among, reserved_names, reserve_session_name}
use hauntty.Daemon.Connection.{is_request}
use hauntty.Daemon.Requests.{
  Host, Handled, write_error, send_to, send_encoded, handle_kick, handle_kill, handle_send,
  handle_send_key,
}
use hauntty.Daemon.Requests.Inspect.{
  sessions_reply, dead_session_rows, handle_list, dump_reply, dump_saved, handle_dump,
  list_dead_names, pruned_reply, handle_prune, handle_status,
}
use hauntty.Daemon.Requests.Answers.{created_reply, create_named, reply_create, answer}

-- The type that the client's method for a request waits for, of internal/client/client.go.
unfoldable pub expected_type : Message → MessageType
expected_type (Message.create m) = type_created
expected_type (Message.list m) = type_sessions
expected_type (Message.dump m) = type_dump_response
expected_type Message.prune = type_prune_response
expected_type (Message.status m) = type_status_response
expected_type _ = type_okay

abbrev pub HasType : MessageType → Message → Type 0
HasType t msg = (message_type msg ≡ t) ⊎ (message_type msg ≡ type_error)

send_to-HasType :
    (session : ℕ) (bytes : List ℕ) (o : Option Text) (s : Server)
    → HasType type_okay (send_to session bytes o s).reply
unfolding message_type
send_to-HasType session bytes none s = inl refl
send_to-HasType session bytes (some text) s = inr refl

kick-HasType : (h : Host) (m : Kick) (s : Server) → HasType type_okay (handle_kick h m s).reply
unfolding handle_kick message_type
kick-HasType h m s = elim (Bool-cases (is_empty m.name || is_empty m.client_id)) [
  | inl e ↦ rw (e, handle_kick) (inr refl)
  | inr e ↦ elim (Option-cases (find m.name s.sessions)) [
    | inl f ↦ rw (e, f, handle_kick) (inr refl)
    | inr (session, f) ↦ elim (Bool-cases ((h.session session).kick_client m.client_id)) [
      | inl k ↦ rw (e, f, k, handle_kick) (inl refl)
      | inr k ↦ rw (e, f, k, handle_kick) (inr refl)
    ]
  ]
]

kill-HasType : (m : Kill) (s : Server) → HasType type_okay (handle_kill m s).reply
unfolding handle_kill message_type
kill-HasType m s = elim (Option-cases (find m.name s.sessions)) [
  | inl f ↦ rw (f, handle_kill) (inr refl)
  | inr (session, f) ↦ rw (f, handle_kill) (inl refl)
]

send-HasType : (h : Host) (m : Send) (s : Server) → HasType type_okay (handle_send h m s).reply
unfolding handle_send message_type
send-HasType h m s = elim (Option-cases (find m.name s.sessions)) [
  | inl f ↦ rw (f, handle_send) (inr refl)
  | inr (session, f) ↦
      rw (f, handle_send)
        (send_to-HasType session m.payload ((h.session session).send_input m.payload) s)
]

encoded-HasType :
    (h : Host) (session : ℕ) (r : Result Text (List ℕ)) (s : Server)
    → HasType type_okay (send_encoded h session r s).reply
unfolding message_type
encoded-HasType h session (err text) s = inr refl
encoded-HasType h session (ok []) s = inl refl
encoded-HasType h session (ok (b ∷ bytes)) s =
    send_to-HasType session (b ∷ bytes) ((h.session session).send_input (b ∷ bytes)) s

send_key-HasType :
    (h : Host) (m : SendKey) (s : Server) → HasType type_okay (handle_send_key h m s).reply
unfolding handle_send_key message_type
send_key-HasType h m s = elim (Option-cases (find m.name s.sessions)) [
  | inl f ↦ rw (f, handle_send_key) (inr refl)
  | inr (session, f) ↦
      rw (f, handle_send_key)
        (encoded-HasType h session ((h.session session).encode_client_key m.key m.mods) s)
]

sessions-HasType :
    (h : Host) (include : Bool) (r : Result ServerError (List Session)) (s : Server)
    → HasType type_sessions (sessions_reply h include r s).reply
unfolding message_type
sessions-HasType h include (err e) s = inr refl
sessions-HasType h include (ok rows) s = inl refl

list-HasType :
    (h : Host) (m : ListRequest) (s : Server) → HasType type_sessions (handle_list h m s).reply
unfolding handle_list
list-HasType h m s = sessions-HasType h m.include_clients (dead_session_rows h s) s

dumped-HasType :
    (r : Result Text (List ℕ)) (s : Server) → HasType type_dump_response (dump_reply r s).reply
unfolding message_type
dumped-HasType (err text) s = inr refl
dumped-HasType (ok bytes) s = inl refl

dump-HasType :
    (h : Host) (m : Dump) (s : Server) → HasType type_dump_response (handle_dump h m s).reply
unfolding handle_dump message_type
dump-HasType h m s = elim (Option-cases (find m.name s.sessions)) [
  | inr (session, f) ↦ rw (f, handle_dump) (dumped-HasType _ s)
  | inl f ↦ elim (Option-cases (dump_saved h m.format (read_dead_session h.os m.name s))) [
    | inl d ↦ rw (f, d, handle_dump) (inr refl)
    | inr (dumped, d) ↦ rw (f, d, handle_dump) (dumped-HasType dumped s)
  ]
]

pruned-HasType :
    (h : Host) (p : Server × Result ServerError ℕ)
    → HasType type_prune_response (pruned_reply h p).reply
unfolding message_type
pruned-HasType h (s, err e) = inr refl
pruned-HasType h (s, ok count) = inl refl

prune-HasType : (h : Host) (s : Server) → HasType type_prune_response (handle_prune h s).reply
unfolding handle_prune message_type
prune-HasType h s = elim (Result-cases (list_dead_names h s)) [
  | inl (e, f) ↦ rw (f, handle_prune) (inr refl)
  | inr (names, f) ↦ rw (f, handle_prune) (pruned-HasType h (prune_dead_sessions h.os s))
]

status-HasType :
    (h : Host) (m : Status) (s : Server) → HasType type_status_response (handle_status h m s).reply
unfolding handle_status message_type
status-HasType h m s = elim (Result-cases (list_dead_names h s)) [
  | inl (e, f) ↦ rw (f, handle_status) (inr refl)
  | inr (names, f) ↦ rw (f, handle_status) (inl refl)
]

-- A reply of the type that is expected, or an error.
abbrev pub Replied : MessageType → Option Handled → Type 0
Replied t o = (handled : Handled) × (o ≡ some handled) × HasType t handled.reply

created-HasType :
    (h : Host) (name : Text) (a : Answer) → HasType type_created (created_reply h name a).reply
unfolding message_type
created-HasType h name (s, err e) = inr refl
created-HasType h name (s, ok session) = inl refl

-- The search for a free name does not run out of fuel.
reserved-named :
    (h : Host) (force : Bool) (s : Server) (r : Result ServerError (List Text))
    → Replied type_created (create_named h force s (reserve_among h.outside r))
unfolding message_type
reserved-named h force s (err e) = (write_error s (h.texts e), refl, inr refl)
reserved-named h force s (ok reserved) =
    let (name, found, free) = generate_unique_name-Free h.outside.draws reserved in
    (
      created_reply h name (handle_create h.os h.world name force s),
      ap (λ o. create_named h force s (ok o)) found,
      created-HasType h name (handle_create h.os h.world name force s),
    )

create-Replied : (h : Host) (m : Create) (s : Server) → Replied type_created (reply_create h m s)
unfolding reply_create reserve_session_name
create-Replied h m s = elim (Bool-cases (is_empty m.name)) [
  | inl e ↦ rw e (reserved-named h m.force s (reserved_names h.outside s))
  | inr e ↦ rw e (
    created_reply h m.name (handle_create h.os h.world m.name m.force s),
    refl,
    created-HasType h m.name (handle_create h.os h.world m.name m.force s),
  )
]

-- What the handler of a request hands to `WriteMessage`, whatever the state of the server, the sessions
-- and the system, is a message of the type that the client's method for the request waits for, or an
-- error; every request of control mode has a handler, and a creation finds its name.
pub answer-Replied :
    (h : Host) (msg : Message) (s : Server)
    → is_request msg ≡ true
    → Replied (expected_type msg) (answer h msg s)
unfolding answer expected_type
answer-Replied h (Message.create m) s e = create-Replied h m s
answer-Replied h (Message.list m) s e = (handle_list h m s, refl, list-HasType h m s)
answer-Replied h (Message.kill m) s e = (handle_kill m s, refl, kill-HasType m s)
answer-Replied h (Message.send m) s e = (handle_send h m s, refl, send-HasType h m s)
answer-Replied h (Message.send_key m) s e = (handle_send_key h m s, refl, send_key-HasType h m s)
answer-Replied h (Message.dump m) s e = (handle_dump h m s, refl, dump-HasType h m s)
answer-Replied h Message.prune s e = (handle_prune h s, refl, prune-HasType h s)
answer-Replied h (Message.status m) s e = (handle_status h m s, refl, status-HasType h m s)
answer-Replied h (Message.kick m) s e = (handle_kick h m s, refl, kick-HasType h m s)
answer-Replied h (Message.attach m) s e = cc
answer-Replied h (Message.input m) s e = cc
answer-Replied h (Message.resize m) s e = cc
answer-Replied h Message.detach s e = cc
answer-Replied h Message.okay s e = cc
answer-Replied h (Message.error m) s e = cc
answer-Replied h (Message.output m) s e = cc
answer-Replied h (Message.created m) s e = cc
answer-Replied h (Message.attached m) s e = cc
answer-Replied h (Message.exited m) s e = cc
answer-Replied h (Message.dump_response m) s e = cc
answer-Replied h (Message.prune_response m) s e = cc
answer-Replied h (Message.clients_changed m) s e = cc
answer-Replied h (Message.sessions m) s e = cc
answer-Replied h (Message.status_response m) s e = cc
