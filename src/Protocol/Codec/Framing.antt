-- ===== src/Protocol/Codec/Framing.antt =====
-- Frames: what `WriteMessage` puts on the connection, `ReadMessage` takes off it, whole and in order.
use hauntty.Prelude.{
  ℕ, suc, List, [], ◌∷◌, ◌++◌, ◌≤◌, ◌<◌, ◌%◌, ◌^◌, length, ok, err, arith, ◌≡◌, refl, ap, ◌∙◌,
  le→not-ltb, suc-ne-zero, append-nil, bind,
}
use hauntty.Protocol.Encoding.{eof, buffer, max_frame_size, ◌>>◌, write_u32}
use hauntty.Protocol.Encoding.Codes.{Codes, Codes-seq, Codes-eq}
use hauntty.Protocol.Encoding.Primitives.{Codes-length32, read_full-append}
use hauntty.Protocol.Encoding.Reads.{read_u8-nil}
use hauntty.Protocol.Messages.{Message}
use hauntty.Protocol.Codec.RoundTrip.{MessageFits, Codes-frame_contents, frame_decoder}
use hauntty.Protocol.Codec.{encode_frame, write_message, decode_frame, read_frame, read_message}

-- The frame of a message that fits decodes to the message.
pub decode_frame-encode_frame :
    (m : Message)
    → MessageFits m
    → (frame : List ℕ) → encode_frame m [] ≡ ok frame
    → decode_frame frame ≡ ok m
unfolding decode_frame
decode_frame-encode_frame m h frame e =
    let c = Codes-frame_contents m h in
    let same : c.wire ≡ frame = cc (c.writes [], e) in
    let back : frame_decoder frame ≡ ok (m, []) = rw (← same, ← append-nil c.wire) (c.reads []) in
    rw back

decode_frame-nil : decode_frame [] ≡ err eof
unfolding decode_frame
decode_frame-nil = rw read_u8-nil

-- A frame within the limits is decoded by itself, and what follows it is left.
pub read_frame-append :
    (frame rest : List ℕ)
    → 0 < length frame
    → length frame ≤ max_frame_size
    → read_frame (length frame) (frame ++ rest) ≡ bind (decode_frame frame) (λ m. ok (m, rest))
unfolding read_frame
read_frame-append [] rest h b = absurd (omega arith)
read_frame-append (x ∷ frame) rest h b = rw (
  suc-ne-zero (length frame),
  le→not-ltb max_frame_size (suc (length frame)) b,
  read_full-append (x ∷ frame) rest,
)

pub decode_frame-nonempty :
    (frame : List ℕ) (m : Message) → decode_frame frame ≡ ok m → 0 < length frame
decode_frame-nonempty [] m e = cc decode_frame-nil
decode_frame-nonempty (x ∷ frame) m e = omega arith

Codes-frame :
    (frame : List ℕ) (m : Message)
    → decode_frame frame ≡ ok m
    → length frame ≤ max_frame_size
    → Codes (λ s. buffer s frame) (read_frame (length frame)) m
Codes-frame frame m e h = record {
  wire = frame;
  writes = λ s. refl;
  reads = λ rest.
      read_frame-append frame rest (decode_frame-nonempty frame m e) h
      ∙ ap (λ r. bind r (λ x. ok (x, rest))) e;
}

Codes-framed :
    (frame : List ℕ) (m : Message)
    → decode_frame frame ≡ ok m
    → length frame ≤ max_frame_size
    → Codes (write_u32 buffer (length frame % 2 ^ 32) >> λ s. buffer s frame) read_message m
unfolding read_message
Codes-framed frame m e h =
    Codes-seq read_frame (Codes-length32 (length frame) h) (Codes-frame frame m e h)

-- A message that fits, in a frame within the limit, is written without error, and read back from the
-- bytes written, whatever follows them on the connection.
pub read_message-write_message :
    (m : Message)
    → MessageFits m
    → (frame : List ℕ) → encode_frame m [] ≡ ok frame
    → length frame ≤ max_frame_size
    → Codes (write_message buffer m) read_message m
unfolding write_message
read_message-write_message m h frame e b =
    Codes-eq (λ s. rw e) (λ bs. refl)
      (Codes-framed frame m (decode_frame-encode_frame m h frame e) b)
