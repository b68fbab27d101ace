-- ===== src/Protocol/Codec.antt =====
-- internal/protocol/codec.go: messages in frames, and the handshake. A connection is the writer that
-- takes its bytes and the bytes that are still to come from the peer; the lock of `WriteMessage` makes
-- a frame's two writes one step.
pub mod Types
pub mod RoundTrip
pub mod Framing
pub mod Streams
pub mod Ranges
pub mod Limits
pub mod Hello
pub mod Examples
use hauntty.Prelude.{
  ℕ, ◌%◌, ◌^◌, List, [], ltb, ◌==◌, if◌then◌else◌, length, ok, bind, Text, Result,
}
use hauntty.Protocol.Encoding.{
  WireError, empty_frame, frame_too_large, Encoder, Decoder, Writer, buffer, ◌>>◌, ◌>>=◌, pure,
  fail, max_frame_size, write_u8, write_u32, write_string, read_full, read_u8, read_u32,
  read_string,
}
use hauntty.Protocol.Messages.{Message}
use Types.{type_byte, message_type, new_message, encode_message, decode_message}

abbrev pub protocol_version : ℕ
protocol_version = 8

-- The type byte and the payload, in a buffer.
unfoldable pub encode_frame : Message → Encoder (List ℕ)
encode_frame msg = do write_u8 buffer (type_byte (message_type msg)); encode_message buffer msg

-- Frame: [u32 length][u8 type][payload...]
unfoldable pub write_message : {S : Type 0} → Writer S → Message → Encoder S
write_message rw msg s =
    bind (encode_frame msg [])
      (λ frame. (write_u32 rw (length frame % 2 ^ 32) >> λ s'. rw s' frame) s)

-- The message in a whole frame; what the message leaves of the frame is dropped.
unfoldable pub decode_frame : List ℕ → Result WireError Message
decode_frame frame =
    bind
      ((do
        raw ← read_u8
        type ← λ bs. bind (new_message raw) (λ t. ok (t, bs))
        decode_message type)
        frame)
      (λ p. ok p.0)

-- What follows the length of a frame.
unfoldable pub read_frame : ℕ → Decoder Message
read_frame size =
    if size == 0
    then fail empty_frame
    else if ltb max_frame_size size
    then fail (frame_too_large size)
    else do frame ← read_full size; λ bs. bind (decode_frame frame) (λ msg. ok (msg, bs))

unfoldable pub read_message : Decoder Message
unfolding read_frame
read_message = do size ← read_u32; read_frame size

-- The bytes of a version and a revision, which open a connection on both sides.
unfoldable pub write_version_reply : {S : Type 0} → Writer S → ℕ → Text → Encoder S
write_version_reply rw version revision = do write_u8 rw version; write_string rw revision

unfoldable pub accept_handshake : Decoder (ℕ × Text)
accept_handshake = do version ← read_u8; revision ← read_string; pure (version, revision)

-- The client's side: what it writes, then what it reads; `peer` holds the bytes that come in.
unfoldable pub handshake :
    {S : Type 0} → Writer S → ℕ → Text → S → List ℕ → Result WireError ((ℕ × Text) × S × List ℕ)
unfolding write_version_reply accept_handshake
handshake rw version revision s peer =
    bind (write_version_reply rw version revision s)
      (λ s'. bind (accept_handshake peer) (λ p. ok (p.0, s', p.1)))
