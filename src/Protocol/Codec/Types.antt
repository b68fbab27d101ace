-- ===== src/Protocol/Codec/Types.antt =====
-- internal/protocol/messages.go and codec.go: the type byte of a message, and the `encode` and
-- `decode` methods that it selects. `newMessage` returns an empty message, of which only the type
-- matters.
use hauntty.Prelude.{ℕ, ok, err, ◌==◌, if◌then◌else◌, Result}
use hauntty.Protocol.Encoding.{WireError, unknown_type, Encoder, Decoder, Writer, ◌>>=◌, pure}
use hauntty.Protocol.Messages.{Message}
use hauntty.Protocol.Requests.{
  encode_create, decode_create, encode_attach, decode_attach, encode_input, decode_input,
  encode_resize, decode_resize, encode_list, decode_list, encode_kill, decode_kill, encode_send,
  decode_send, encode_send_key, decode_send_key, encode_dump, decode_dump, encode_kick, decode_kick,
  encode_status, decode_status,
}
use hauntty.Protocol.Responses.Encode.{
  encode_sessions, encode_status_response, encode_error, encode_output, encode_created,
  encode_attached, encode_exited, encode_dump_response, encode_prune_response,
  encode_clients_changed,
}
use hauntty.Protocol.Responses.Decode.{
  decode_sessions, decode_status_response, decode_error, decode_output, decode_created,
  decode_attached, decode_exited, decode_dump_response, decode_prune_response,
  decode_clients_changed,
}

pub data MessageType : Type 0 where
  type_attach : MessageType
  type_input : MessageType
  type_resize : MessageType
  type_detach : MessageType
  type_list : MessageType
  type_kill : MessageType
  type_send : MessageType
  type_dump : MessageType
  type_prune : MessageType
  type_send_key : MessageType
  type_create : MessageType
  type_status : MessageType
  type_kick : MessageType
  type_okay : MessageType
  type_error : MessageType
  type_output : MessageType
  type_attached : MessageType
  type_sessions : MessageType
  type_exited : MessageType
  type_dump_response : MessageType
  type_prune_response : MessageType
  type_clients_changed : MessageType
  type_status_response : MessageType
  type_created : MessageType

-- The constants of `MessageType`, as they stand on the wire.
unfoldable pub type_byte : MessageType → ℕ
type_byte type_attach = 0x01
type_byte type_input = 0x02
type_byte type_resize = 0x03
type_byte type_detach = 0x04
type_byte type_list = 0x05
type_byte type_kill = 0x06
type_byte type_send = 0x07
type_byte type_dump = 0x08
type_byte type_prune = 0x09
type_byte type_send_key = 0x0a
type_byte type_create = 0x0b
type_byte type_status = 0x0c
type_byte type_kick = 0x0d
type_byte type_okay = 0x80
type_byte type_error = 0x81
type_byte type_output = 0x82
type_byte type_attached = 0x83
type_byte type_sessions = 0x84
type_byte type_exited = 0x85
type_byte type_dump_response = 0x86
type_byte type_prune_response = 0x87
type_byte type_clients_changed = 0x88
type_byte type_status_response = 0x89
type_byte type_created = 0x8a

-- The method `Type`.
unfoldable pub message_type : Message → MessageType
message_type (Message.attach m) = type_attach
message_type (Message.input m) = type_input
message_type (Message.resize m) = type_resize
message_type Message.detach = type_detach
message_type (Message.list m) = type_list
message_type (Message.kill m) = type_kill
message_type (Message.send m) = type_send
message_type (Message.dump m) = type_dump
message_type Message.prune = type_prune
message_type (Message.send_key m) = type_send_key
message_type (Message.create m) = type_create
message_type (Message.status m) = type_status
message_type (Message.kick m) = type_kick
message_type Message.okay = type_okay
message_type (Message.error m) = type_error
message_type (Message.output m) = type_output
message_type (Message.attached m) = type_attached
message_type (Message.sessions m) = type_sessions
message_type (Message.exited m) = type_exited
message_type (Message.dump_response m) = type_dump_response
message_type (Message.prune_response m) = type_prune_response
message_type (Message.clients_changed m) = type_clients_changed
message_type (Message.status_response m) = type_status_response
message_type (Message.created m) = type_created

unfoldable pub new_message : ℕ → Result WireError MessageType
new_message raw =
    if raw == 0x01
    then ok type_attach
    else if raw == 0x02
    then ok type_input
    else if raw == 0x03
    then ok type_resize
    else if raw == 0x04
    then ok type_detach
    else if raw == 0x05
    then ok type_list
    else if raw == 0x06
    then ok type_kill
    else if raw == 0x07
    then ok type_send
    else if raw == 0x08
    then ok type_dump
    else if raw == 0x09
    then ok type_prune
    else if raw == 0x0a
    then ok type_send_key
    else if raw == 0x0b
    then ok type_create
    else if raw == 0x0c
    then ok type_status
    else if raw == 0x0d
    then ok type_kick
    else if raw == 0x80
    then ok type_okay
    else if raw == 0x81
    then ok type_error
    else if raw == 0x82
    then ok type_output
    else if raw == 0x83
    then ok type_attached
    else if raw == 0x84
    then ok type_sessions
    else if raw == 0x85
    then ok type_exited
    else if raw == 0x86
    then ok type_dump_response
    else if raw == 0x87
    then ok type_prune_response
    else if raw == 0x88
    then ok type_clients_changed
    else if raw == 0x89
    then ok type_status_response
    else if raw == 0x8a
    then ok type_created
    else err (unknown_type raw)

-- The method `encode`.
unfoldable pub encode_message : {S : Type 0} → Writer S → Message → Encoder S
encode_message w (Message.attach m) s = encode_attach w m s
encode_message w (Message.input m) s = encode_input w m s
encode_message w (Message.resize m) s = encode_resize w m s
encode_message w Message.detach s = ok s
encode_message w (Message.list m) s = encode_list w m s
encode_message w (Message.kill m) s = encode_kill w m s
encode_message w (Message.send m) s = encode_send w m s
encode_message w (Message.dump m) s = encode_dump w m s
encode_message w Message.prune s = ok s
encode_message w (Message.send_key m) s = encode_send_key w m s
encode_message w (Message.create m) s = encode_create w m s
encode_message w (Message.status m) s = encode_status w m s
encode_message w (Message.kick m) s = encode_kick w m s
encode_message w Message.okay s = ok s
encode_message w (Message.error m) s = encode_error w m s
encode_message w (Message.output m) s = encode_output w m s
encode_message w (Message.attached m) s = encode_attached w m s
encode_message w (Message.sessions m) s = encode_sessions w m s
encode_message w (Message.exited m) s = encode_exited w m s
encode_message w (Message.dump_response m) s = encode_dump_response w m s
encode_message w (Message.prune_response m) s = encode_prune_response w m s
encode_message w (Message.clients_changed m) s = encode_clients_changed w m s
encode_message w (Message.status_response m) s = encode_status_response w m s
encode_message w (Message.created m) s = encode_created w m s

-- The method `decode` of the message that `newMessage` made.
unfoldable pub decode_message : MessageType → Decoder Message
decode_message type_attach = do m ← decode_attach; pure (Message.attach m)
decode_message type_input = do m ← decode_input; pure (Message.input m)
decode_message type_resize = do m ← decode_resize; pure (Message.resize m)
decode_message type_detach = pure Message.detach
decode_message type_list = do m ← decode_list; pure (Message.list m)
decode_message type_kill = do m ← decode_kill; pure (Message.kill m)
decode_message type_send = do m ← decode_send; pure (Message.send m)
decode_message type_dump = do m ← decode_dump; pure (Message.dump m)
decode_message type_prune = pure Message.prune
decode_message type_send_key = do m ← decode_send_key; pure (Message.send_key m)
decode_message type_create = do m ← decode_create; pure (Message.create m)
decode_message type_status = do m ← decode_status; pure (Message.status m)
decode_message type_kick = do m ← decode_kick; pure (Message.kick m)
decode_message type_okay = pure Message.okay
decode_message type_error = do m ← decode_error; pure (Message.error m)
decode_message type_output = do m ← decode_output; pure (Message.output m)
decode_message type_attached = do m ← decode_attached; pure (Message.attached m)
decode_message type_sessions = do m ← decode_sessions; pure (Message.sessions m)
decode_message type_exited = do m ← decode_exited; pure (Message.exited m)
decode_message type_dump_response = do m ← decode_dump_response; pure (Message.dump_response m)
decode_message type_prune_response = do m ← decode_prune_response; pure (Message.prune_response m)
decode_message type_clients_changed = do
  m ← decode_clients_changed
  pure (Message.clients_changed m)
decode_message type_status_response = do
  m ← decode_status_response
  pure (Message.status_response m)
decode_message type_created = do m ← decode_created; pure (Message.created m)
