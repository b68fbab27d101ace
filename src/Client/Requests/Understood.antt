-- ===== src/Client/Requests/Understood.antt =====
-- The client understands what the daemon answers.
use hauntty.Prelude.{
  ℕ, Bool, List, bind, ◌≡◌, refl, subst, sym, inl, inr, true, Option, some, Text, Result, ok, err,
}
use hauntty.Protocol.Messages.{
  Message, Create, Kick, Kill, Send, SendKey, ListRequest, Dump, Status,
}
use hauntty.Protocol.Codec.Types.{
  MessageType, type_byte, message_type, type_okay, type_created, type_sessions, type_dump_response,
  type_prune_response, type_status_response, type_error,
}
use hauntty.Protocol.Codec.Streams.{Sendable}
use hauntty.Daemon.Server.{Server}
use hauntty.Daemon.Connection.{is_request}
use hauntty.Daemon.Requests.{Host, Handled}
use hauntty.Daemon.Requests.Answers.{answer}
use hauntty.Daemon.Requests.Replies.{expected_type, HasType, answer-Replied}
use hauntty.Client.Requests.Answered.{serve, request-answer}
use hauntty.Client.Requests.{
  RequestError, send_failed, read_failed, unexpected_type, server_error, Peer, create_session,
  list_sessions, kill, send, send_key, dump, prune, status, kick, Assertion, checked, response,
  request, as_ok, as_created, as_sessions, as_dump, as_prune, as_status,
}

-- The requests that the methods of the client make, with the assertions on their responses.
pub data Asks : (T : Type 0) → Assertion T → Message → Type 1 where
  asks_create : (m : Create) → Asks _ as_created (Message.create m)
  asks_list : (m : ListRequest) → Asks _ as_sessions (Message.list m)
  asks_kill : (m : Kill) → Asks _ as_ok (Message.kill m)
  asks_send : (m : Send) → Asks _ as_ok (Message.send m)
  asks_send_key : (m : SendKey) → Asks _ as_ok (Message.send_key m)
  asks_dump : (m : Dump) → Asks _ as_dump (Message.dump m)
  asks_prune : Asks _ as_prune Message.prune
  asks_status : (m : Status) → Asks _ as_status (Message.status m)
  asks_kick : (m : Kick) → Asks _ as_ok (Message.kick m)

-- The assertion holds of every message of the type.
abbrev Accepts : {T : Type 0} → Assertion T → MessageType → Type 0
Accepts {T} asserted type = (m : Message) → message_type m ≡ type → (t : T) × (asserted m ≡ some t)

as_ok-Accepts : Accepts as_ok type_okay
unfolding message_type
as_ok-Accepts Message.okay e = (tt, refl)
as_ok-Accepts _ e = cc

as_created-Accepts : Accepts as_created type_created
unfolding message_type
as_created-Accepts (Message.created x) e = (x, refl)
as_created-Accepts _ e = cc

as_sessions-Accepts : Accepts as_sessions type_sessions
unfolding message_type
as_sessions-Accepts (Message.sessions x) e = (x.sessions, refl)
as_sessions-Accepts _ e = cc

as_dump-Accepts : Accepts as_dump type_dump_response
unfolding message_type
as_dump-Accepts (Message.dump_response x) e = (x, refl)
as_dump-Accepts _ e = cc

as_prune-Accepts : Accepts as_prune type_prune_response
unfolding message_type
as_prune-Accepts (Message.prune_response x) e = (x, refl)
as_prune-Accepts _ e = cc

as_status-Accepts : Accepts as_status type_status_response
unfolding message_type
as_status-Accepts (Message.status_response x) e = (x, refl)
as_status-Accepts _ e = cc

asked-Accepts :
    {T : Type 0} (asserted : Assertion T) (msg : Message)
    → Asks T asserted msg
    → Accepts asserted (expected_type msg)
unfolding expected_type
asked-Accepts _ _ (asks_create m) = as_created-Accepts
asked-Accepts _ _ (asks_list m) = as_sessions-Accepts
asked-Accepts _ _ (asks_kill m) = as_ok-Accepts
asked-Accepts _ _ (asks_send m) = as_ok-Accepts
asked-Accepts _ _ (asks_send_key m) = as_ok-Accepts
asked-Accepts _ _ (asks_dump m) = as_dump-Accepts
asked-Accepts _ _ asks_prune = as_prune-Accepts
asked-Accepts _ _ (asks_status m) = as_status-Accepts
asked-Accepts _ _ (asks_kick m) = as_ok-Accepts

asked-is_request :
    {T : Type 0} (asserted : Assertion T) (msg : Message)
    → Asks T asserted msg
    → is_request msg ≡ true
asked-is_request _ _ (asks_create m) = refl
asked-is_request _ _ (asks_list m) = refl
asked-is_request _ _ (asks_kill m) = refl
asked-is_request _ _ (asks_send m) = refl
asked-is_request _ _ (asks_send_key m) = refl
asked-is_request _ _ (asks_dump m) = refl
asked-is_request _ _ asks_prune = refl
asked-is_request _ _ (asks_status m) = refl
asked-is_request _ _ (asks_kick m) = refl

-- A result, or an error that the daemon has answered with.
abbrev pub IsUnderstood : {T : Type 0} → Result RequestError T → Type 0
IsUnderstood (ok t) = Unit {0}
IsUnderstood (err (server_error op message)) = Unit {0}
IsUnderstood (err e) = ⊥

error-IsUnderstood :
    {T : Type 0} (asserted : Assertion T) (op : Text) (m : Message)
    → message_type m ≡ type_error
    → IsUnderstood (response asserted op m)
unfolding message_type response
error-IsUnderstood asserted op (Message.error m) e = tt
error-IsUnderstood asserted op _ e = cc

checked-IsUnderstood :
    {T : Type 0} (type : ℕ) (o : Option T) (t : T) → o ≡ some t → IsUnderstood (checked type o)
checked-IsUnderstood type o t e = subst (λ p. IsUnderstood (checked type p)) (sym e) tt

accepted-IsUnderstood :
    {T : Type 0} (asserted : Assertion T) (op : Text) (m : Message) (t : T)
    → asserted m ≡ some t
    → IsUnderstood (response asserted op m)
unfolding response
accepted-IsUnderstood asserted op (Message.error m) t e = tt
accepted-IsUnderstood asserted op m t e =
    checked-IsUnderstood (type_byte (message_type m)) (asserted m) t e

replied-IsUnderstood :
    {T : Type 0} (asserted : Assertion T) (op : Text) (msg reply : Message)
    → Asks T asserted msg
    → HasType (expected_type msg) reply
    → IsUnderstood (response asserted op reply)
replied-IsUnderstood asserted op msg reply asked (inl e) =
    let (t, f) = asked-Accepts asserted msg asked reply e in
    accepted-IsUnderstood asserted op reply t f
replied-IsUnderstood asserted op msg reply asked (inr e) = error-IsUnderstood asserted op reply e

-- If the request and the daemon's replies fit on the wire, what comes over the connection is understood.
pub request-IsUnderstood :
    {T : Type 0} (asserted : Assertion T) (op : Text) (h : Host) (s : Server) (msg : Message)
    → Asks T asserted msg
    → Sendable msg
    → ((handled : Handled) → answer h msg s ≡ some handled → Sendable handled.reply)
    → IsUnderstood (request asserted op msg (serve h s))
request-IsUnderstood asserted op h s msg asked sendable fit =
    let (handled, e, typed) = answer-Replied h msg s (asked-is_request asserted msg asked) in
    subst IsUnderstood (sym (request-answer asserted op h s msg handled e sendable (fit handled e)))
      (replied-IsUnderstood asserted op msg handled.reply asked typed)

-- The methods of the client that make one request, with their arguments.
pub data Method : Type 0 where
  creates_session : Create → Method
  lists_sessions : Bool → Method
  kills : Text → Method
  sends : Text → List ℕ → Method
  sends_key : Text → ℕ → ℕ → Method
  dumps : Text → ℕ → Method
  prunes : Method
  asks_for_status : Text → Method
  kicks : Text → Text → Method

-- The message of the protocol that stands for the call.
abbrev pub asked : Method → Message
asked (creates_session m) = Message.create m
asked (lists_sessions include) = Message.list (record { include_clients = include })
asked (kills name) = Message.kill (record { name = name })
asked (sends name bytes) = Message.send (record { name = name; payload = bytes })
asked (sends_key name key mods) = Message.send_key (record { name = name; key = key; mods = mods })
asked (dumps name format) = Message.dump (record { name = name; format = format })
asked prunes = Message.prune
asked (asks_for_status name) = Message.status (record { name = name })
asked (kicks name client) = Message.kick (record { name = name; client_id = client })

-- What the method returns over the connection is understood.
abbrev pub CallIsUnderstood : Method → Peer → Type 0
CallIsUnderstood (creates_session m) peer = IsUnderstood (create_session m peer)
CallIsUnderstood (lists_sessions include) peer = IsUnderstood (list_sessions include peer)
CallIsUnderstood (kills name) peer = IsUnderstood (kill name peer)
CallIsUnderstood (sends name bytes) peer = IsUnderstood (send name bytes peer)
CallIsUnderstood (sends_key name key mods) peer = IsUnderstood (send_key name key mods peer)
CallIsUnderstood (dumps name format) peer = IsUnderstood (dump name format peer)
CallIsUnderstood prunes peer = IsUnderstood (prune peer)
CallIsUnderstood (asks_for_status name) peer = IsUnderstood (status name peer)
CallIsUnderstood (kicks name client) peer = IsUnderstood (kick name client peer)

bind-IsUnderstood :
    {A B : Type 0} (f : A → B) (r : Result RequestError A)
    → IsUnderstood r
    → IsUnderstood (bind r (λ a. ok (f a)))
bind-IsUnderstood f (ok a) u = tt
bind-IsUnderstood f (err (server_error op message)) u = tt
bind-IsUnderstood f (err (send_failed op e)) u = u
bind-IsUnderstood f (err (read_failed op e)) u = u
bind-IsUnderstood f (err (unexpected_type type)) u = u

-- Each of the nine methods of the client that make one request (all but the attach) returns, over the
-- connection to the daemon, a result or an error that the daemon has answered with, never an unexpected
-- type or an error of the transport, if the message of the request and the daemon's reply to it fit on
-- the wire.
pub call-IsUnderstood :
    (h : Host) (s : Server) (method : Method)
    → Sendable (asked method)
    → ((handled : Handled) → answer h (asked method) s ≡ some handled → Sendable handled.reply)
    → CallIsUnderstood method (serve h s)
unfolding list_sessions dump prune status
call-IsUnderstood h s (creates_session m) w f =
    request-IsUnderstood as_created _ h s _ (asks_create m) w f
call-IsUnderstood h s (lists_sessions include) w f =
    bind-IsUnderstood _ _ (request-IsUnderstood as_sessions _ h s _ (asks_list _) w f)
call-IsUnderstood h s (kills name) w f = request-IsUnderstood as_ok _ h s _ (asks_kill _) w f
call-IsUnderstood h s (sends name bytes) w f = request-IsUnderstood as_ok _ h s _ (asks_send _) w f
call-IsUnderstood h s (sends_key name key mods) w f =
    request-IsUnderstood as_ok _ h s _ (asks_send_key _) w f
call-IsUnderstood h s (dumps name format) w f =
    bind-IsUnderstood _ _ (request-IsUnderstood as_dump _ h s _ (asks_dump _) w f)
call-IsUnderstood h s prunes w f =
    bind-IsUnderstood _ _ (request-IsUnderstood as_prune _ h s _ asks_prune w f)
call-IsUnderstood h s (asks_for_status name) w f =
    bind-IsUnderstood _ _ (request-IsUnderstood as_status _ h s _ (asks_status _) w f)
call-IsUnderstood h s (kicks name client) w f = request-IsUnderstood as_ok _ h s _ (asks_kick _) w f
