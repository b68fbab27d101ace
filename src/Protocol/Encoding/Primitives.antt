-- ===== src/Protocol/Encoding/Primitives.antt =====
-- The primitive fields are read back as they were written, within their widths.
use hauntty.Prelude.{
  ℕ, ◌%◌, ◌^◌, ◌≤◌, ◌<◌, ◌≡◌, refl, Bool, true, false, List, [], ◌∷◌, ◌++◌, arith, ltb, leb, ◌==◌,
  if◌then◌else◌, length, take-append, drop-append, length-append, le→not-ltb, suc-ne-zero, All,
  Text, ℤ, pos, negsuc, ok, append-nil, Bool-cases, inl, inr,
}
use hauntty.Protocol.Encoding.{
  buffer, pure, fail, slice_count_exceeds, slice_size_exceeds, max_frame_size, put_u16, put_u32,
  write_u8, write_u16, write_u32, write_i32, write_bool, write_string, write_strings, write_body,
  write_string_slice, write_bytes, Decoder, read_full, read_u8, read_u16, read_u32, read_i32,
  read_bool, read_string, read_times, read_string_slice, read_bytes, u32_of_i32, i32_of_u32,
  big_endian,
}
use hauntty.Protocol.Encoding.Codes.{Codes, Codes-seq, Codes-map, Codes-nothing, Codes-eq}

abbrev pub IsU8 : ℕ → Type 0
IsU8 v = v < 256

abbrev pub IsU16 : ℕ → Type 0
IsU16 v = v < 2 ^ 16

abbrev pub IsU32 : ℕ → Type 0
IsU32 v = v < 2 ^ 32

abbrev pub IsI32 : ℤ → Type 0
IsI32 (pos n) = n < 2 ^ 31
IsI32 (negsuc n) = n < 2 ^ 31

-- A string that `WriteString` accepts.
abbrev pub IsShort : Text → Type 0
IsShort v = length v ≤ 0xFFFF

abbrev pub AreShort : List Text → Type 0
AreShort v = (length v ≤ max_frame_size) × All IsShort v

abbrev pub IsBlob : List ℕ → Type 0
IsBlob v = length v ≤ max_frame_size

-- ReadFull of the length of what comes first.
pub read_full-append : (v rest : List ℕ) → read_full (length v) (v ++ rest) ≡ ok (v, rest)
unfolding read_full
read_full-append v rest = elim (Bool-cases (leb (length v) (length (v ++ rest)))) [
  | inl e ↦ rw (e, take-append v rest, drop-append v rest)
  | inr e ↦ absurd (ground (arith, length-append v rest))
]

pub put_u16-value : (v : ℕ) → IsU16 v → big_endian 0 (put_u16 v) ≡ v
put_u16-value v h = omega arith

pub put_u32-value : (v : ℕ) → IsU32 v → big_endian 0 (put_u32 v) ≡ v
put_u32-value v h = omega arith

pub Codes-u8 : {v : ℕ} → IsU8 v → Codes (write_u8 buffer v) read_u8 v
unfolding write_u8 read_u8
Codes-u8 {v} h = record {
  wire = v ∷ [];
  writes = λ s. refl;
  reads = λ rest. rw (read_full-append (v ∷ []) rest) (ground arith);
}

pub Codes-u16 : {v : ℕ} → IsU16 v → Codes (write_u16 buffer v) read_u16 v
unfolding write_u16 read_u16
Codes-u16 {v} h = record {
  wire = put_u16 v;
  writes = λ s. refl;
  reads = λ rest. rw (read_full-append (put_u16 v) rest, put_u16-value v h);
}

pub read_u32-put_u32 :
    (v : ℕ) (rest : List ℕ) → IsU32 v → read_u32 (put_u32 v ++ rest) ≡ ok (v, rest)
unfolding read_u32
read_u32-put_u32 v rest h = rw (read_full-append (put_u32 v) rest, put_u32-value v h)

pub Codes-u32 : {v : ℕ} → IsU32 v → Codes (write_u32 buffer v) read_u32 v
unfolding write_u32
Codes-u32 {v} h = record {
  wire = put_u32 v;
  writes = λ s. refl;
  reads = λ rest. read_u32-put_u32 v rest h;
}

u32_of_i32-IsU32 : (v : ℤ) → IsU32 (u32_of_i32 v)
u32_of_i32-IsU32 (pos n) = omega arith
u32_of_i32-IsU32 (negsuc n) = omega arith

i32_of_u32-u32_of_i32 : (v : ℤ) → IsI32 v → i32_of_u32 (u32_of_i32 v) ≡ v
i32_of_u32-u32_of_i32 (pos n) h = ground arith
i32_of_u32-u32_of_i32 (negsuc n) h = ground arith

pub Codes-i32 : {v : ℤ} → IsI32 v → Codes (write_i32 buffer v) read_i32 v
unfolding write_i32 read_i32
Codes-i32 {v} h = record {
  wire = put_u32 (u32_of_i32 v);
  writes = λ s. refl;
  reads = λ rest. rw (
    read_full-append (put_u32 (u32_of_i32 v)) rest,
    put_u32-value (u32_of_i32 v) (u32_of_i32-IsU32 v),
    i32_of_u32-u32_of_i32 v h,
  );
}

pub Codes-bool : {v : Bool} → Codes (write_bool buffer v) read_bool v
unfolding write_bool read_bool
Codes-bool {v = true} = record {
  wire = 1 ∷ [];
  writes = λ s. refl;
  reads = λ rest. rw (read_full-append (1 ∷ []) rest);
}
Codes-bool {v = false} = record {
  wire = 0 ∷ [];
  writes = λ s. refl;
  reads = λ rest. rw (read_full-append (0 ∷ []) rest);
}

-- What follows the length of a string or of a blob.
abbrev read_body : ℕ → Decoder (List ℕ)
read_body n = if n == 0 then pure [] else read_full n

Codes-body : (v : List ℕ) → Codes (write_body buffer v) (read_body (length v)) v
unfolding write_body
Codes-body [] = record { wire = []; writes = λ s. rw append-nil; reads = λ rest. refl }
Codes-body (x ∷ v) = record {
  wire = x ∷ v;
  writes = λ s. rw (suc-ne-zero (length v));
  reads = λ rest. rw (suc-ne-zero (length v)) (read_full-append (x ∷ v) rest);
}

-- The lengths in front of them, which fit their words.
Codes-length16 : (n : ℕ) → n ≤ 0xFFFF → Codes (write_u16 buffer (n % 2 ^ 16)) read_u16 n
Codes-length16 n h =
    let small : n % 2 ^ 16 ≡ n = omega arith in rw small (Codes-u16 {v = n} (omega arith))

pub Codes-length32 : (n : ℕ) → n ≤ max_frame_size → Codes (write_u32 buffer (n % 2 ^ 32)) read_u32 n
Codes-length32 n h =
    let small : n % 2 ^ 32 ≡ n = omega arith in rw small (Codes-u32 {v = n} (omega arith))

pub Codes-string : {v : Text} → IsShort v → Codes (write_string buffer v) read_string v
unfolding write_string read_string
Codes-string {v} h =
    Codes-eq (λ s. rw (le→not-ltb 0xFFFF (length v) h)) (λ bs. refl)
      (Codes-seq read_body (Codes-length16 (length v) h) (Codes-body v))

Codes-strings :
    (v : List Text)
    → All IsShort v
    → Codes (write_strings buffer v) (read_times (length v) read_string) v
unfolding write_strings read_times
Codes-strings [] h = Codes-nothing []
Codes-strings (x ∷ v) h = Codes-seq _ (Codes-string h.0) (Codes-map (◌∷◌ x) (Codes-strings v h.1))

abbrev read_slice : ℕ → Decoder (List Text)
read_slice n =
    if ltb max_frame_size n then fail (slice_count_exceeds n) else read_times n read_string

Codes-slice :
    (v : List Text) → AreShort v → Codes (write_strings buffer v) (read_slice (length v)) v
Codes-slice v h = rw (le→not-ltb max_frame_size (length v) h.0) (Codes-strings v h.1)

pub Codes-string_slice :
    {v : List Text} → AreShort v → Codes (write_string_slice buffer v) read_string_slice v
unfolding write_string_slice read_string_slice
Codes-string_slice {v} h = Codes-seq read_slice (Codes-length32 (length v) h.0) (Codes-slice v h)

abbrev read_blob : ℕ → Decoder (List ℕ)
read_blob n =
    if n == 0
    then pure []
    else if ltb max_frame_size n
    then fail (slice_size_exceeds n)
    else read_full n

Codes-blob : (v : List ℕ) → IsBlob v → Codes (write_body buffer v) (read_blob (length v)) v
Codes-blob v h = rw (le→not-ltb max_frame_size (length v) h) (Codes-body v)

pub Codes-bytes : {v : List ℕ} → IsBlob v → Codes (write_bytes buffer v) read_bytes v
unfolding write_bytes read_bytes
Codes-bytes {v} h = Codes-seq read_blob (Codes-length32 (length v) h) (Codes-blob v h)

pub ruleset field_codes = (
  Codes-u8, Codes-u16, Codes-u32, Codes-i32, Codes-bool, Codes-string, Codes-string_slice,
  Codes-bytes,
)
