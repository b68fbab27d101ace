-- ===== src/Protocol/Codec/Limits.antt =====
-- Frames that `ReadMessage` refuses: cut short, or longer than `maxFrameSize`.
use hauntty.Prelude.{
  false, ℕ, zero, suc, List, [], ◌∷◌, ◌++◌, ◌+◌, ◌≤◌, ◌<◌, ◌%◌, ◌^◌, length, ok, err, arith, ◌≡◌,
  ◌==◌, le→not-ltb, lt→ltb, suc-ne-zero, append_assoc, if◌then◌else◌, take, length-take,
}
use hauntty.Protocol.Encoding.{
  WireError, eof, unexpected_eof, frame_too_large, buffer, max_frame_size, put_u32, write_u32,
}
use hauntty.Protocol.Encoding.Primitives.{read_u32-put_u32}
use hauntty.Protocol.Encoding.Reads.{read_u32-short, short, read_full-short}
use hauntty.Protocol.Messages.{Message}
use hauntty.Protocol.Codec.{encode_frame, write_message, read_frame, read_message}

-- The error of a connection that ends `have` bytes into a frame.
abbrev pub cut_short : ℕ → WireError
cut_short have = if have == 0 then eof else if have == 4 then eof else unexpected_eof

read_frame-short :
    (frame : List ℕ) (j : ℕ)
    → j < length frame
    → length frame ≤ max_frame_size
    → read_frame (length frame) (take j frame) ≡ err (short j)
unfolding read_frame
read_frame-short [] j h b = absurd (omega arith)
read_frame-short (x ∷ frame) j h b =
    let size : length (take j (x ∷ frame)) ≡ j = omega (arith, length-take j (x ∷ frame)) in
    let missing : length (take j (x ∷ frame)) < length (x ∷ frame) = omega arith in
    rw (
      suc-ne-zero (length frame),
      le→not-ltb max_frame_size (suc (length frame)) b,
      read_full-short (suc (length frame)) (take j (x ∷ frame)) missing,
      size,
    )

read_message-few : (bs : List ℕ) → length bs < 4 → read_message bs ≡ err (short (length bs))
unfolding read_message
read_message-few bs h = rw (read_u32-short bs h)

-- A connection that ends inside a frame gives `io.EOF` exactly when it ends before the length or
-- between the length and the type, and `io.ErrUnexpectedEOF` anywhere else.
pub read_message-take :
    (frame : List ℕ) (k : ℕ)
    → length frame ≤ max_frame_size
    → k < 4 + length frame
    → read_message (take k (put_u32 (length frame) ++ frame)) ≡ err (cut_short k)
unfolding read_message
read_message-take frame zero b h = read_message-few [] (omega arith)
read_message-take frame (suc zero) b h =
    read_message-few (take 1 (put_u32 (length frame) ++ frame)) (omega arith)
read_message-take frame (suc (suc zero)) b h =
    read_message-few (take 2 (put_u32 (length frame) ++ frame)) (omega arith)
read_message-take frame (suc (suc (suc zero))) b h =
    read_message-few (take 3 (put_u32 (length frame) ++ frame)) (omega arith)
read_message-take frame (suc (suc (suc (suc j)))) b h =
    rw
      (
        read_u32-put_u32 (length frame) (take j frame) (omega arith),
        read_frame-short frame j (omega arith) b,
      )
      (ground arith)

-- `WriteMessage` does not look at the limit: a frame over it and below 4 GiB is written without error,
-- and every reader refuses it.
pub write_message-frame_too_large :
    (m : Message) (frame s rest : List ℕ)
    → encode_frame m [] ≡ ok frame
    → max_frame_size < length frame
    → length frame < 2 ^ 32
    → (wire : List ℕ) × (write_message buffer m s ≡ ok (s ++ wire))
      × (read_message (wire ++ rest) ≡ err (frame_too_large (length frame)))
unfolding write_message read_message read_frame write_u32
write_message-frame_too_large m frame s rest e over fits =
    let small : length frame % 2 ^ 32 ≡ length frame = omega arith in
    let nonzero : (length frame == 0) ≡ false = ground arith in
    (
      put_u32 (length frame) ++ frame,
      rw (e, small, append_assoc s (put_u32 (length frame)) frame),
      rw (read_u32-put_u32 (length frame) (frame ++ rest) fits, nonzero, lt→ltb _ _ over),
    )
