-- ===== src/Protocol/Codec/Examples.antt =====
-- Runs of the codec, and the theorems about it at concrete messages.
use hauntty.Prelude.{
  ℕ, zero, suc, ◌%◌, ◌^◌, ◌==◌, List, [], ◌∷◌, ◌++◌, ◌<◌, ◌≡◌, refl, true, false, codes, length, ok,
  err, arith, negsuc,
}
use hauntty.Protocol.Encoding.{
  buffer, unexpected_eof, frame_too_large, put_u32, read_times, unknown_type, empty_frame,
}
use hauntty.Protocol.Encoding.{
  write_u8, write_u16, write_u32, write_bool, write_string, write_string_slice, write_bytes,
  write_i32,
}
use hauntty.Protocol.Encoding.{read_u8, read_u32, read_string}
use hauntty.Protocol.Encoding.Codes.{Codes}
use hauntty.Protocol.Messages.{Message}
use hauntty.Protocol.Requests.{encode_attach, encode_kill, decode_kill}
use hauntty.Protocol.Responses.Encode.{encode_exited, encode_dump_response}
use hauntty.Protocol.Codec.Types.{
  type_byte, message_type, new_message, encode_message, decode_message,
}
use hauntty.Protocol.Codec.RoundTrip.{MessageFits}
use hauntty.Protocol.Codec.Ranges.{read_message-MessageFits}
use hauntty.Protocol.Codec.Framing.{read_message-write_message}
use hauntty.Protocol.Codec.Streams.{
  Sendable, Framed, write_messages, read_times-write_messages, read_message-Framed,
}
use hauntty.Protocol.Codec.Limits.{read_message-take, write_message-frame_too_large}
use hauntty.Protocol.Codec.{encode_frame, write_message, decode_frame, read_message}

abbrev attach_work : Message
attach_work = Message.attach (record {
  name = codes "work";
  command = codes "top" ∷ [];
  env = codes "TERM=xterm" ∷ codes "A=" ∷ [];
  cwd = [];
  cols = 120;
  rows = 40;
  xpixel = 0;
  ypixel = 65535;
  read_only = true;
  restore = false;
  scrollback = 10000;
})

abbrev killed : Message
killed = Message.exited (record { exit_code = negsuc 0 })

abbrev kill_work : Message
kill_work = Message.kill (record { name = codes "ab" })

kill_frame : encode_frame kill_work [] ≡ ok (6 ∷ 0 ∷ 2 ∷ 97 ∷ 98 ∷ [])
unfolding encode_frame encode_message encode_kill type_byte message_type write_u8 write_string
kill_frame = refl

exited_frame : encode_frame killed [] ≡ ok (0x85 ∷ 255 ∷ 255 ∷ 255 ∷ 255 ∷ [])
unfolding encode_frame encode_message encode_exited type_byte message_type write_u8 write_i32
exited_frame = refl

kill_bytes : List ℕ
kill_bytes = 0 ∷ 0 ∷ 0 ∷ 5 ∷ 6 ∷ 0 ∷ 2 ∷ 97 ∷ 98 ∷ 7 ∷ []

read_kill : read_message kill_bytes ≡ ok (kill_work, 7 ∷ [])
unfolding kill_bytes read_message decode_frame new_message decode_message decode_kill read_u8
    read_u32 read_string
read_kill = refl

read_unknown : read_message (0 ∷ 0 ∷ 0 ∷ 1 ∷ 14 ∷ []) ≡ err (unknown_type 14)
unfolding read_message decode_frame new_message read_u8 read_u32
read_unknown = refl

read_empty_frame : read_message (0 ∷ 0 ∷ 0 ∷ 0 ∷ []) ≡ err empty_frame
unfolding read_message read_u32
read_empty_frame = refl

attach_frame : List ℕ
attach_frame =
    1 ∷ 0 ∷ 4 ∷ codes "work"
    ++ (0 ∷ 0 ∷ 0 ∷ 1 ∷ 0 ∷ 3 ∷ codes "top"
        ++ (0 ∷ 0 ∷ 0 ∷ 2 ∷ 0 ∷ 10 ∷ codes "TERM=xterm"
            ++ (0 ∷ 2 ∷ codes "A="
                ++ (0 ∷ 0 ∷ 0 ∷ 120 ∷ 0 ∷ 40 ∷ 0 ∷ 0 ∷ 255 ∷ 255 ∷ 1 ∷ 0 ∷ 0 ∷ 0 ∷ 39 ∷ 16 ∷ []))))

attach_encoded : encode_frame attach_work [] ≡ ok attach_frame
unfolding attach_frame encode_frame encode_message encode_attach type_byte message_type write_u8
    write_u16 write_u32 write_bool write_string write_string_slice
attach_encoded = refl

read_message-write_message_example :
    Codes (write_message buffer attach_work) read_message attach_work
unfolding attach_frame
read_message-write_message_example =
    read_message-write_message attach_work (omega arith) attach_frame attach_encoded (omega arith)

attach_Sendable : Sendable attach_work
unfolding attach_frame
attach_Sendable = record {
  fits = omega arith;
  frame = attach_frame;
  encoded = attach_encoded;
  within = omega arith;
}

kill_Sendable : Sendable kill_work
kill_Sendable = record {
  fits = omega arith;
  frame = 6 ∷ 0 ∷ 2 ∷ 97 ∷ 98 ∷ [];
  encoded = kill_frame;
  within = omega arith;
}

read_times-write_messages_example :
    Codes
      (write_messages buffer (attach_work ∷ kill_work ∷ []))
      (read_times 2 read_message)
      (attach_work ∷ kill_work ∷ [])
read_times-write_messages_example =
    read_times-write_messages (attach_work ∷ kill_work ∷ []) (attach_Sendable, (kill_Sendable, tt))

read_message-Framed_example : Framed kill_bytes kill_work (7 ∷ [])
unfolding kill_bytes
read_message-Framed_example = read_message-Framed kill_bytes (omega arith) read_kill

read_message-take_example : read_message (0 ∷ 0 ∷ 0 ∷ 5 ∷ 6 ∷ 0 ∷ []) ≡ err unexpected_eof
read_message-take_example =
    read_message-take (6 ∷ 0 ∷ 2 ∷ 97 ∷ 98 ∷ []) 6 (omega arith) (omega arith)

zeros : ℕ → List ℕ
zeros zero = []
zeros (suc n) = 0 ∷ zeros n

length-zeros : (n : ℕ) → length (zeros n) ≡ n
unfolding zeros
length-zeros zero = refl
length-zeros (suc n) = omega (arith, length-zeros n)

abbrev dumped : List ℕ → Message
dumped payload = Message.dump_response (record { payload = payload })

abbrev dumped_frame : List ℕ → List ℕ
dumped_frame payload = 0x86 ∷ (put_u32 (length payload % 2 ^ 32) ++ payload)

dumped-encoded :
    (payload : List ℕ)
    → 0 < length payload
    → encode_frame (dumped payload) [] ≡ ok (dumped_frame payload)
unfolding encode_frame encode_message encode_dump_response type_byte message_type write_u8
    write_bytes
dumped-encoded payload h = let nonzero : (length payload == 0) ≡ false = ground arith in rw nonzero

-- A screen dump of 16 MB.
write_message-frame_too_large_example :
    (wire : List ℕ) × (write_message buffer (dumped (zeros (2 ^ 24))) [] ≡ ok wire)
    × (read_message (wire ++ []) ≡ err (frame_too_large (length (dumped_frame (zeros (2 ^ 24))))))
write_message-frame_too_large_example =
    write_message-frame_too_large (dumped (zeros (2 ^ 24))) (dumped_frame (zeros (2 ^ 24))) [] []
      (dumped-encoded (zeros (2 ^ 24)) (omega (arith, length-zeros (2 ^ 24))))
      (omega (arith, length-zeros (2 ^ 24))) (omega (arith, length-zeros (2 ^ 24)))

read_message-MessageFits_example :
    MessageFits kill_work × ((frame : List ℕ) × (encode_frame kill_work [] ≡ ok frame))
unfolding kill_bytes
read_message-MessageFits_example =
    read_message-MessageFits kill_bytes kill_work (7 ∷ []) (omega arith) read_kill
