-- ===== src/Protocol/Codec/Streams.antt =====
-- Frames on a connection: many in a row, cut short, or over the limit.
use hauntty.Prelude.{
  ℕ, not-ltb→le, List, [], ◌∷◌, ◌++◌, ◌≤◌, ◌<◌, length, ok, arith, ◌≡◌, ap, ◌∙◌, ltb, ◌==◌, All,
  bind, bind-eq-ok, Bool-cases, inl, inr,
}
use hauntty.Protocol.Encoding.{
  buffer, max_frame_size, put_u32, Writer, Encoder, ◌>>◌, read_full, read_u32, read_times,
}
use hauntty.Protocol.Encoding.Codes.{Codes, Codes-seq, Codes-map, Codes-nothing}
use hauntty.Protocol.Encoding.Primitives.{IsU8}
use hauntty.Protocol.Encoding.Reads.{read_u32-splits, read_full-splits}
use hauntty.Protocol.Messages.{Message}
use hauntty.Protocol.Codec.RoundTrip.{MessageFits}
use hauntty.Protocol.Codec.Framing.{read_message-write_message}
use hauntty.Protocol.Codec.{encode_frame, write_message, decode_frame, read_frame, read_message}

-- A message that fits, with its frame, which is within the limit.
pub record Sendable (m : Message) : Type 0 where
  pub fits : MessageFits m
  pub frame : List ℕ
  pub encoded : encode_frame m [] ≡ ok frame
  pub within : length frame ≤ max_frame_size

-- Successive calls of `WriteMessage`.
pub write_messages : {S : Type 0} → Writer S → List Message → Encoder S
write_messages rw [] s = ok s
write_messages rw (m ∷ ms) s = (write_message rw m >> write_messages rw ms) s

-- Messages written one after the other are read back in their order, none lost and none joined.
pub read_times-write_messages :
    (ms : List Message)
    → All Sendable ms
    → Codes (write_messages buffer ms) (read_times (length ms) read_message) ms
unfolding write_messages read_times
read_times-write_messages [] h = Codes-nothing []
read_times-write_messages (m ∷ ms) (s, h) =
    Codes-seq _ (read_message-write_message m s.fits s.frame s.encoded s.within)
      (Codes-map (◌∷◌ m) (read_times-write_messages ms h))

-- The frame that a successful read took off the connection.
pub record Framed (bs : List ℕ) (m : Message) (rest : List ℕ) : Type 0 where
  pub frame : List ℕ
  pub split : bs ≡ put_u32 (length frame) ++ (frame ++ rest)
  pub nonempty : 0 < length frame
  pub within : length frame ≤ max_frame_size
  pub decoded : decode_frame frame ≡ ok m

read_frame-splits :
    (size : ℕ) (bs : List ℕ) {m : Message} {rest : List ℕ}
    → read_frame size bs ≡ ok (m, rest)
    → (frame : List ℕ) × (bs ≡ frame ++ rest)
      × (length frame ≡ size)
      × (0 < size)
      × (size ≤ max_frame_size)
      × (decode_frame frame ≡ ok m)
unfolding read_frame
read_frame-splits size bs {m} {rest} e = elim (Bool-cases (size == 0)) [
  | inl z ↦ ground arith
  | inr z ↦
      let pos : 0 < size = ground arith in
      elim (Bool-cases (ltb max_frame_size size)) [
        | inl large ↦ ground arith
        | inr within ↦
            let limit : size ≤ max_frame_size = not-ltb→le max_frame_size size within in
            let e' : bind (read_full size bs) (λ p. bind (decode_frame p.0) (λ x. ok (x, p.1)))
                ≡ ok (m, rest) =
              rw (z, within) at e in
            let (p, found, decoded) = bind-eq-ok (read_full size bs) _ e' in
            let (x, got, same) = bind-eq-ok (decode_frame p.0) (λ x. ok (x, p.1)) decoded in
            let (split, sized) = read_full-splits size bs {b = p.0} {rest = p.1} found in
            let left : p.1 ≡ rest = cc same in
            let value : x ≡ m = cc same in
            (p.0, split ∙ ap (◌++◌ p.0) left, sized, pos, limit, got ∙ ap ok value)
      ]
]

-- A read that succeeds took exactly one frame: its length word, and that many bytes, at least one and
-- at most the limit, which decode to the message by themselves; what follows is left untouched.
pub read_message-Framed :
    (bs : List ℕ) {m : Message} {rest : List ℕ}
    → All IsU8 bs
    → read_message bs ≡ ok (m, rest)
    → Framed bs m rest
unfolding read_message
read_message-Framed bs {m} {rest} h e =
    let (p, word, framed) = bind-eq-ok (read_u32 bs) (λ p. read_frame p.0 p.1) e in
    let (frame, split, size, pos, within, decoded) = read_frame-splits p.0 p.1 framed in
    record {
      frame = frame;
      split = rw (size, ← split) (read_u32-splits bs {n = p.0} {rest = p.1} h word);
      nonempty = rw size pos;
      within = rw size within;
      decoded = decoded;
    }
