-- ===== src/Protocol/Codec/Ranges.antt =====
-- `ReadMessage` returns only messages that fit the wire, so each can be sent on.
use hauntty.Prelude.{
  ℕ, List, [], ◌++◌, length, ◌≡◌, ok, All, All-of-append, subst, bind, bind-eq-ok,
}
use hauntty.Protocol.Encoding.{put_u32}
use hauntty.Protocol.Encoding.Primitives.{IsU8}
use hauntty.Protocol.Encoding.Ranges.{Yields, Yields-pure, Yields-bind, Yields-read_u8}
use hauntty.Protocol.Requests.Ranges.{
  Yields-create, Yields-attach, Yields-input, Yields-resize, Yields-list, Yields-kill, Yields-send,
  Yields-send_key, Yields-dump, Yields-kick, Yields-status,
}
use hauntty.Protocol.Responses.Ranges.{
  Yields-sessions, Yields-status_response, Yields-error, Yields-output, Yields-created,
  Yields-attached, Yields-exited, Yields-dump_response, Yields-prune_response,
  Yields-clients_changed,
}
use hauntty.Protocol.Messages.{Message}
use hauntty.Protocol.Codec.Types.{MessageType, decode_message, new_message}
use hauntty.Protocol.Codec.RoundTrip.{MessageFits, frame_decoder, Codes-frame_contents}
use hauntty.Protocol.Codec.Streams.{Framed, read_message-Framed}
use hauntty.Protocol.Codec.{encode_frame, decode_frame, read_message}

Yields-new_message : (raw : ℕ) → Yields (λ bs. bind (new_message raw) (λ t. ok (t, bs))) (λ _. Unit)
Yields-new_message raw = record {
  holds = λ bs t rest bytes e.
      let (t', _, same) = bind-eq-ok (new_message raw) (λ t. ok (t, bs)) e in
      (tt, subst (All IsU8) (cc same) bytes);
}

Yields-message : (t : MessageType) → Yields (decode_message t) MessageFits
unfolding decode_message
Yields-message MessageType.type_attach = Yields-bind Yields-attach (λ m h. Yields-pure h)
Yields-message MessageType.type_input = Yields-bind Yields-input (λ m h. Yields-pure h)
Yields-message MessageType.type_resize = Yields-bind Yields-resize (λ m h. Yields-pure h)
Yields-message MessageType.type_detach = Yields-pure tt
Yields-message MessageType.type_list = Yields-bind Yields-list (λ m h. Yields-pure h)
Yields-message MessageType.type_kill = Yields-bind Yields-kill (λ m h. Yields-pure h)
Yields-message MessageType.type_send = Yields-bind Yields-send (λ m h. Yields-pure h)
Yields-message MessageType.type_dump = Yields-bind Yields-dump (λ m h. Yields-pure h)
Yields-message MessageType.type_prune = Yields-pure tt
Yields-message MessageType.type_send_key = Yields-bind Yields-send_key (λ m h. Yields-pure h)
Yields-message MessageType.type_create = Yields-bind Yields-create (λ m h. Yields-pure h)
Yields-message MessageType.type_status = Yields-bind Yields-status (λ m h. Yields-pure h)
Yields-message MessageType.type_kick = Yields-bind Yields-kick (λ m h. Yields-pure h)
Yields-message MessageType.type_okay = Yields-pure tt
Yields-message MessageType.type_error = Yields-bind Yields-error (λ m h. Yields-pure h)
Yields-message MessageType.type_output = Yields-bind Yields-output (λ m h. Yields-pure h)
Yields-message MessageType.type_attached = Yields-bind Yields-attached (λ m h. Yields-pure h)
Yields-message MessageType.type_sessions = Yields-bind Yields-sessions (λ m h. Yields-pure h)
Yields-message MessageType.type_exited = Yields-bind Yields-exited (λ m h. Yields-pure h)
Yields-message MessageType.type_dump_response =
    Yields-bind Yields-dump_response (λ m h. Yields-pure h)
Yields-message MessageType.type_prune_response =
    Yields-bind Yields-prune_response (λ m h. Yields-pure h)
Yields-message MessageType.type_clients_changed =
    Yields-bind Yields-clients_changed (λ m h. Yields-pure h)
Yields-message MessageType.type_status_response =
    Yields-bind Yields-status_response (λ m h. Yields-pure h)
Yields-message MessageType.type_created = Yields-bind Yields-created (λ m h. Yields-pure h)

Yields-frame : Yields frame_decoder MessageFits
Yields-frame =
    Yields-bind Yields-read_u8 λ raw h. Yields-bind (Yields-new_message raw) λ t _. Yields-message t

-- The message of a frame of bytes fits.
decode_frame-MessageFits :
    (frame : List ℕ) (m : Message) → All IsU8 frame → decode_frame frame ≡ ok m → MessageFits m
unfolding decode_frame
decode_frame-MessageFits frame m h e =
    let (p, got, same) = bind-eq-ok (frame_decoder frame) (λ p. ok p.0) e in
    let (fits, _) = Yields-frame.holds frame p.0 p.1 h got in subst MessageFits (cc same) fits

-- A message that `ReadMessage` returns has every field within its width and every string and list
-- within its limit, and `encode` accepts it again.
pub read_message-MessageFits :
    (bs : List ℕ) (m : Message) (rest : List ℕ)
    → All IsU8 bs
    → read_message bs ≡ ok (m, rest)
    → MessageFits m × ((frame : List ℕ) × (encode_frame m [] ≡ ok frame))
read_message-MessageFits bs m rest h e =
    let f : Framed bs m rest = read_message-Framed bs h e in
    let bytes =
      All-of-append IsU8 (put_u32 (length f.frame)) (f.frame ++ rest)
        (subst (All IsU8) f.split h) in
    let own = All-of-append IsU8 f.frame rest bytes.1 in
    let fits = decode_frame-MessageFits f.frame m own.0 f.decoded in
    let c = Codes-frame_contents m fits in (fits, (c.wire, c.writes []))
