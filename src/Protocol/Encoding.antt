-- ===== src/Protocol/Encoding.antt =====
-- internal/protocol/encoding.go: the primitive fields of the wire format. An `Encoder` threads the
-- state of its `io.Writer`; a `Decoder` reads from the bytes that the `io.Reader` still has before
-- EOF. What is left in a reader or writer after an error is not modelled: every caller gives it up.
pub mod Codes
pub mod Primitives
pub mod Reads
pub mod Ranges
use hauntty.Prelude.{
  ℕ, zero, suc, ◌+◌, ◌-◌, ◌*◌, ◌/◌, ◌%◌, ◌^◌, Bool, not, List, [], ◌∷◌, ◌++◌, ltb, leb, ◌==◌,
  if◌then◌else◌, length, take, drop, Text, ℤ, pos, negsuc, Result, ok, err, bind,
}

-- maxFrameSize of codec.go: 16 << 20.
abbrev pub max_frame_size : ℕ
max_frame_size = 16 * 2 ^ 20

-- The errors that reading and writing return.
pub data WireError : Type 0 where
  eof unexpected_eof write_failed empty_frame : WireError
  string_too_long slice_count_exceeds slice_size_exceeds : ℕ → WireError
  client_count_exceeds session_count_exceeds frame_too_large unknown_type : ℕ → WireError

-- An `io.Writer` whose state is an `S`: one call of `Write`.
abbrev pub Writer : Type 0 → Type 0
Writer S = S → List ℕ → Result WireError S

-- `bytes.Buffer`, which never fails.
abbrev pub buffer : Writer (List ℕ)
buffer s bs = ok (s ++ bs)

abbrev pub Encoder : Type 0 → Type 0
Encoder S = S → Result WireError S

infixl 5 ◌>>◌ ◌>>=◌
abbrev pub ◌>>◌ : {S : Type 0} → Encoder S → Encoder S → Encoder S
◌>>◌ e f s = bind (e s) f

-- binary.BigEndian.PutUint16 and PutUint32.
abbrev pub put_u16 : ℕ → List ℕ
put_u16 v = (v / 2 ^ 8 % 256) ∷ (v % 256) ∷ []

abbrev pub put_u32 : ℕ → List ℕ
put_u32 v = (v / 2 ^ 24 % 256) ∷ (v / 2 ^ 16 % 256) ∷ (v / 2 ^ 8 % 256) ∷ (v % 256) ∷ []

-- uint32(v) and int32(u).
abbrev pub u32_of_i32 : ℤ → ℕ
u32_of_i32 (pos n) = n % 2 ^ 32
u32_of_i32 (negsuc n) = 2 ^ 32 - 1 - n % 2 ^ 32

abbrev pub i32_of_u32 : ℕ → ℤ
i32_of_u32 u = if ltb u (2 ^ 31) then pos u else negsuc (2 ^ 32 - 1 - u)

module _ {S : Type 0} (w : Writer S) where
  unfoldable pub write_u8 : ℕ → Encoder S
  write_u8 v s = w s (v ∷ [])

  unfoldable pub write_u16 : ℕ → Encoder S
  write_u16 v s = w s (put_u16 v)

  unfoldable pub write_u32 : ℕ → Encoder S
  write_u32 v s = w s (put_u32 v)

  unfoldable pub write_i32 : ℤ → Encoder S
  write_i32 v s = w s (put_u32 (u32_of_i32 v))

  unfoldable pub write_bool : Bool → Encoder S
  write_bool v s = w s ((if v then 1 else 0) ∷ [])

  -- The body that follows a length: nothing is written for length 0.
  unfoldable pub write_body : List ℕ → Encoder S
  write_body v s = if length v == 0 then ok s else w s v

  unfoldable pub write_string : Text → Encoder S
  unfolding write_u16 write_body
  write_string v s =
      if ltb 0xFFFF (length v)
      then err (string_too_long (length v))
      else (write_u16 (length v % 2 ^ 16) >> write_body v) s

  unfoldable pub write_strings : List Text → Encoder S
  unfolding write_string
  write_strings [] s = ok s
  write_strings (v ∷ vs) s = (write_string v >> write_strings vs) s

  unfoldable pub write_string_slice : List Text → Encoder S
  unfolding write_u32 write_strings
  write_string_slice v = do write_u32 (length v % 2 ^ 32); write_strings v

  unfoldable pub write_bytes : List ℕ → Encoder S
  unfolding write_u32 write_body
  write_bytes v = do write_u32 (length v % 2 ^ 32); write_body v

-- A value and the bytes that are left to read.
abbrev pub Decoder : Type 0 → Type 0
Decoder A = List ℕ → Result WireError (A × List ℕ)

abbrev pub ◌>>=◌ : {A B : Type 0} → Decoder A → (A → Decoder B) → Decoder B
◌>>=◌ d f bs = bind (d bs) (λ p. f p.0 p.1)

abbrev pub pure : {A : Type 0} → A → Decoder A
pure a bs = ok (a, bs)

abbrev pub fail : {A : Type 0} → WireError → Decoder A
fail e bs = err e

-- io.ReadFull into a buffer of length n: EOF if there is nothing, ErrUnexpectedEOF if too little.
unfoldable pub read_full : ℕ → Decoder (List ℕ)
read_full n bs =
    if leb n (length bs)
    then ok (take n bs, drop n bs)
    else if length bs == 0
    then err eof
    else err unexpected_eof

-- binary.BigEndian.Uint16 and Uint32 of the buffer: the digits, the most significant first.
abbrev pub big_endian : ℕ → List ℕ → ℕ
big_endian acc [] = acc
big_endian acc (b ∷ bs) = big_endian (acc * 256 + b) bs

unfoldable pub read_u8 : Decoder ℕ
unfolding read_full
read_u8 = do b ← read_full 1; pure (big_endian 0 b)

unfoldable pub read_u16 : Decoder ℕ
unfolding read_full
read_u16 = do b ← read_full 2; pure (big_endian 0 b)

unfoldable pub read_u32 : Decoder ℕ
unfolding read_full
read_u32 = do b ← read_full 4; pure (big_endian 0 b)

unfoldable pub read_i32 : Decoder ℤ
unfolding read_full
read_i32 = do b ← read_full 4; pure (i32_of_u32 (big_endian 0 b))

unfoldable pub read_bool : Decoder Bool
unfolding read_full
read_bool = do b ← read_full 1; pure (not (big_endian 0 b == 0))

unfoldable pub read_string : Decoder Text
unfolding read_u16 read_full
read_string = do n ← read_u16; if n == 0 then pure [] else read_full n

-- `for i := range s { s[i], err = read() }`
unfoldable pub read_times : {A : Type 0} → ℕ → Decoder A → Decoder (List A)
read_times zero d = pure []
read_times (suc n) d = do a ← d; rest ← read_times n d; pure (a ∷ rest)

unfoldable pub read_string_slice : Decoder (List Text)
unfolding read_u32 read_string read_times
read_string_slice = do
  n ← read_u32
  if ltb max_frame_size n then fail (slice_count_exceeds n) else read_times n read_string

unfoldable pub read_bytes : Decoder (List ℕ)
unfolding read_u32 read_full
read_bytes = do
  n ← read_u32
  if n == 0
      then pure []
      else if ltb max_frame_size n
      then fail (slice_size_exceeds n)
      else read_full n
