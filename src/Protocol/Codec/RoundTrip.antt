-- ===== src/Protocol/Codec/RoundTrip.antt =====
-- What a message's `encode` writes, its `decode` reads back, when the message fits.
use hauntty.Prelude.{◌<◌, ok, arith, ◌≡◌, refl, bind}
use hauntty.Protocol.Encoding.{buffer, ◌>>=◌, read_u8, Decoder}
use hauntty.Protocol.Encoding.Codes.{Codes, Codes-seq, Codes-map, Codes-nothing, Codes-eq}
use hauntty.Protocol.Encoding.Primitives.{Codes-u8}
use hauntty.Protocol.Messages.{Message}
use hauntty.Protocol.Requests.RoundTrip.{
  CreateFits, AttachFits, InputFits, ResizeFits, KillFits, SendFits, SendKeyFits, DumpFits,
  KickFits, StatusFits, Codes-create, Codes-attach, Codes-input, Codes-resize, Codes-list,
  Codes-kill, Codes-send, Codes-send_key, Codes-dump, Codes-kick, Codes-status,
}
use hauntty.Protocol.Responses.Fits.{
  SessionsFits, StatusResponseFits, ErrorReplyFits, OutputFits, CreatedFits, AttachedFits,
  ExitedFits, DumpResponseFits, PruneResponseFits, ClientsChangedFits,
}
use hauntty.Protocol.Responses.RoundTrip.{
  Codes-sessions, Codes-status_response, Codes-error, Codes-output, Codes-created, Codes-attached,
  Codes-exited, Codes-dump_response, Codes-prune_response, Codes-clients_changed,
}
use hauntty.Protocol.Codec.Types.{
  MessageType, type_byte, message_type, new_message, encode_message, decode_message,
}
use hauntty.Protocol.Codec.{encode_frame}

-- The fields of a message fit their widths on the wire, and its lists their limits.
abbrev pub MessageFits : Message → Type 0
MessageFits (Message.attach m) = AttachFits m
MessageFits (Message.input m) = InputFits m
MessageFits (Message.resize m) = ResizeFits m
MessageFits Message.detach = Unit
MessageFits (Message.list m) = Unit
MessageFits (Message.kill m) = KillFits m
MessageFits (Message.send m) = SendFits m
MessageFits (Message.dump m) = DumpFits m
MessageFits Message.prune = Unit
MessageFits (Message.send_key m) = SendKeyFits m
MessageFits (Message.create m) = CreateFits m
MessageFits (Message.status m) = StatusFits m
MessageFits (Message.kick m) = KickFits m
MessageFits Message.okay = Unit
MessageFits (Message.error m) = ErrorReplyFits m
MessageFits (Message.output m) = OutputFits m
MessageFits (Message.attached m) = AttachedFits m
MessageFits (Message.sessions m) = SessionsFits m
MessageFits (Message.exited m) = ExitedFits m
MessageFits (Message.dump_response m) = DumpResponseFits m
MessageFits (Message.prune_response m) = PruneResponseFits m
MessageFits (Message.clients_changed m) = ClientsChangedFits m
MessageFits (Message.status_response m) = StatusResponseFits m
MessageFits (Message.created m) = CreatedFits m

Codes-message :
    (m : Message)
    → MessageFits m
    → Codes (encode_message buffer m) (decode_message (message_type m)) m
unfolding encode_message decode_message message_type
Codes-message (Message.attach m) h = Codes-map Message.attach (Codes-attach h)
Codes-message (Message.input m) h = Codes-map Message.input (Codes-input h)
Codes-message (Message.resize m) h = Codes-map Message.resize (Codes-resize h)
Codes-message Message.detach h = Codes-nothing Message.detach
Codes-message (Message.list m) h = Codes-map Message.list Codes-list
Codes-message (Message.kill m) h = Codes-map Message.kill (Codes-kill h)
Codes-message (Message.send m) h = Codes-map Message.send (Codes-send h)
Codes-message (Message.dump m) h = Codes-map Message.dump (Codes-dump h)
Codes-message Message.prune h = Codes-nothing Message.prune
Codes-message (Message.send_key m) h = Codes-map Message.send_key (Codes-send_key h)
Codes-message (Message.create m) h = Codes-map Message.create (Codes-create h)
Codes-message (Message.status m) h = Codes-map Message.status (Codes-status h)
Codes-message (Message.kick m) h = Codes-map Message.kick (Codes-kick h)
Codes-message Message.okay h = Codes-nothing Message.okay
Codes-message (Message.error m) h = Codes-map Message.error (Codes-error h)
Codes-message (Message.output m) h = Codes-map Message.output (Codes-output h)
Codes-message (Message.attached m) h = Codes-map Message.attached (Codes-attached h)
Codes-message (Message.sessions m) h = Codes-map Message.sessions (Codes-sessions h)
Codes-message (Message.exited m) h = Codes-map Message.exited (Codes-exited h)
Codes-message (Message.dump_response m) h = Codes-map Message.dump_response (Codes-dump_response h)
Codes-message (Message.prune_response m) h =
    Codes-map Message.prune_response (Codes-prune_response h)
Codes-message (Message.clients_changed m) h =
    Codes-map Message.clients_changed (Codes-clients_changed h)
Codes-message (Message.status_response m) h =
    Codes-map Message.status_response (Codes-status_response h)
Codes-message (Message.created m) h = Codes-map Message.created (Codes-created h)

-- `newMessage` knows the byte of each type.
pub new_message-type_byte : (t : MessageType) → new_message (type_byte t) ≡ ok t
unfolding new_message type_byte
new_message-type_byte MessageType.type_attach = refl
new_message-type_byte MessageType.type_input = refl
new_message-type_byte MessageType.type_resize = refl
new_message-type_byte MessageType.type_detach = refl
new_message-type_byte MessageType.type_list = refl
new_message-type_byte MessageType.type_kill = refl
new_message-type_byte MessageType.type_send = refl
new_message-type_byte MessageType.type_dump = refl
new_message-type_byte MessageType.type_prune = refl
new_message-type_byte MessageType.type_send_key = refl
new_message-type_byte MessageType.type_create = refl
new_message-type_byte MessageType.type_status = refl
new_message-type_byte MessageType.type_kick = refl
new_message-type_byte MessageType.type_okay = refl
new_message-type_byte MessageType.type_error = refl
new_message-type_byte MessageType.type_output = refl
new_message-type_byte MessageType.type_attached = refl
new_message-type_byte MessageType.type_sessions = refl
new_message-type_byte MessageType.type_exited = refl
new_message-type_byte MessageType.type_dump_response = refl
new_message-type_byte MessageType.type_prune_response = refl
new_message-type_byte MessageType.type_clients_changed = refl
new_message-type_byte MessageType.type_status_response = refl
new_message-type_byte MessageType.type_created = refl

type_byte-lt : (t : MessageType) → type_byte t < 256
unfolding type_byte
type_byte-lt MessageType.type_attach = omega arith
type_byte-lt MessageType.type_input = omega arith
type_byte-lt MessageType.type_resize = omega arith
type_byte-lt MessageType.type_detach = omega arith
type_byte-lt MessageType.type_list = omega arith
type_byte-lt MessageType.type_kill = omega arith
type_byte-lt MessageType.type_send = omega arith
type_byte-lt MessageType.type_dump = omega arith
type_byte-lt MessageType.type_prune = omega arith
type_byte-lt MessageType.type_send_key = omega arith
type_byte-lt MessageType.type_create = omega arith
type_byte-lt MessageType.type_status = omega arith
type_byte-lt MessageType.type_kick = omega arith
type_byte-lt MessageType.type_okay = omega arith
type_byte-lt MessageType.type_error = omega arith
type_byte-lt MessageType.type_output = omega arith
type_byte-lt MessageType.type_attached = omega arith
type_byte-lt MessageType.type_sessions = omega arith
type_byte-lt MessageType.type_exited = omega arith
type_byte-lt MessageType.type_dump_response = omega arith
type_byte-lt MessageType.type_prune_response = omega arith
type_byte-lt MessageType.type_clients_changed = omega arith
type_byte-lt MessageType.type_status_response = omega arith
type_byte-lt MessageType.type_created = omega arith

abbrev pub frame_decoder : Decoder Message
frame_decoder = do
  raw ← read_u8
  type ← λ bs. bind (new_message raw) (λ t. ok (t, bs))
  decode_message type

pub Codes-frame_contents : (m : Message) → MessageFits m → Codes (encode_frame m) frame_decoder m
unfolding encode_frame
Codes-frame_contents m h =
    Codes-seq _ (Codes-u8 (type_byte-lt (message_type m)))
      (Codes-eq (λ s. refl) (λ bs. rw (new_message-type_byte (message_type m))) (Codes-message m h))
