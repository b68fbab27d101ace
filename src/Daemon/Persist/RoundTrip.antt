-- ===== src/Daemon/Persist/RoundTrip.antt =====
-- A state is read back from its file.
use hauntty.Prelude.{
  subst, ℕ, ◌^◌, ◌%◌, ◌≤◌, ◌<◌, ◌≡◌, false, List, [], ◌∷◌, ◌++◌, ltb, ◌==◌, length, text_eq, ℤ, pos,
  negsuc, ok, bind, arith, append_assoc,
}
use hauntty.Protocol.Encoding.{
  Decoder, put_u16, put_u32, big_endian, read_full, read_u8, read_u16, read_u32,
}
use hauntty.Protocol.Encoding.Primitives.{IsU16, put_u16-value, read_full-append, read_u32-put_u32}
use hauntty.Daemon.Persist.{
  state_version, SessionState, Field, snapshot_field, cols_field, rows_field, saved_at_field,
  version_field, Reader, reading, read_u64, put_u64, u64_of_i64, i64_of_u64,
  max_state_snapshot_bytes, encode_state, put_state, read_snapshot, read_fields, read_versioned,
  decode_state,
}

abbrev pub IsI64 : ℤ → Type 0
IsI64 (pos n) = n < 2 ^ 63
IsI64 (negsuc n) = n < 2 ^ 63

pub record StateFits (s : SessionState) : Type 0 where
  pub cols : IsU16 s.cols
  pub rows : IsU16 s.rows
  pub saved_at : IsI64 s.saved_at
  pub filled : 0 < length s.snapshot
  pub within : length s.snapshot ≤ max_state_snapshot_bytes

-- A decoder that gives a value and leaves the rest.
abbrev Reads : {A : Type 0} → Reader A → List ℕ → A → Type 0
Reads d wire a = (rest : List ℕ) → d (wire ++ rest) ≡ ok (a, rest)

reading-ok :
    {A : Type 0} (f : Field) (d : Decoder A) (bs rest : List ℕ) (a : A)
    → d bs ≡ ok (a, rest)
    → reading f d bs ≡ ok (a, rest)
unfolding reading
reading-ok f d bs rest a e = rw (e, reading)

u16-Reads : (f : Field) (v : ℕ) → IsU16 v → Reads (reading f read_u16) (put_u16 v) v
unfolding read_u16
u16-Reads f v h rest =
    reading-ok f read_u16 (put_u16 v ++ rest) rest v
      (rw (read_full-append (put_u16 v) rest, put_u16-value v h))

u32-Reads : (f : Field) (v : ℕ) → v < 2 ^ 32 → Reads (reading f read_u32) (put_u32 v) v
u32-Reads f v h rest = reading-ok f read_u32 (put_u32 v ++ rest) rest v (read_u32-put_u32 v rest h)

put_u64-value : (v : ℕ) → v < 2 ^ 64 → big_endian 0 (put_u64 v) ≡ v
put_u64-value v h = omega arith

u64-Reads : (f : Field) (v : ℕ) → v < 2 ^ 64 → Reads (reading f read_u64) (put_u64 v) v
unfolding read_u64
u64-Reads f v h rest =
    reading-ok f read_u64 (put_u64 v ++ rest) rest v
      (rw (read_full-append (put_u64 v) rest, put_u64-value v h))

i64-u64 : (v : ℤ) → IsI64 v → i64_of_u64 (u64_of_i64 v) ≡ v
i64-u64 (pos n) h = ground arith
i64-u64 (negsuc n) h = ground arith

u64_of_i64-lt : (v : ℤ) → u64_of_i64 v < 2 ^ 64
u64_of_i64-lt (pos n) = omega arith
u64_of_i64-lt (negsuc n) = omega arith

-- The rest of a decoder behind a field.
then-Reads :
    {A B : Type 0} (d : Reader A) (f : A → Reader B) (wire more : List ℕ) (a : A) (b : B)
    (rest : List ℕ)
    → Reads d wire a
    → f a (more ++ rest) ≡ ok (b, rest)
    → bind (d ((wire ++ more) ++ rest)) (λ p. f p.0 p.1) ≡ ok (b, rest)
then-Reads d f wire more a b rest r e = rw (append_assoc wire more rest, r (more ++ rest)) e

snapshot-Reads :
    (v : List ℕ)
    → 0 < length v
    → length v ≤ max_state_snapshot_bytes
    → Reads read_snapshot (put_u32 (length v % 2 ^ 32) ++ v) v
unfolding read_snapshot
snapshot-Reads v filled within rest =
    let small : length v % 2 ^ 32 ≡ length v = omega arith in
    let nonzero : (length v == 0) ≡ false = ground arith in
    let fits : ltb max_state_snapshot_bytes (length v) ≡ false = ground arith in
    let counted : Reads (reading snapshot_field read_u32) (put_u32 (length v % 2 ^ 32)) (length v) =
      subst (Reads (reading snapshot_field read_u32) (put_u32 (length v % 2 ^ 32))) small
        (u32-Reads snapshot_field (length v % 2 ^ 32) (omega arith)) in
    then-Reads (reading snapshot_field read_u32) _ (put_u32 (length v % 2 ^ 32)) v (length v) v rest
      counted
      (rw (nonzero, fits)
        (reading-ok snapshot_field (read_full (length v)) (v ++ rest) rest v
          (read_full-append v rest)))

-- The bytes behind each field.
abbrev behind_saved_at : SessionState → List ℕ
behind_saved_at s = put_u32 (length s.snapshot % 2 ^ 32) ++ s.snapshot

abbrev behind_rows : SessionState → List ℕ
behind_rows s = put_u64 (u64_of_i64 s.saved_at) ++ behind_saved_at s

abbrev behind_cols : SessionState → List ℕ
behind_cols s = put_u16 s.rows ++ behind_rows s

abbrev behind_version : SessionState → List ℕ
behind_version s = put_u16 s.cols ++ behind_cols s

fields-Reads : (s : SessionState) → StateFits s → Reads read_fields (behind_version s) s
unfolding read_fields
fields-Reads s fits rest =
    let saved = u64_of_i64 s.saved_at in
    then-Reads (reading cols_field read_u16) _ (put_u16 s.cols) (behind_cols s) s.cols s rest
      (u16-Reads cols_field s.cols fits.cols)
      (then-Reads (reading rows_field read_u16) _ (put_u16 s.rows) (behind_rows s) s.rows s rest
        (u16-Reads rows_field s.rows fits.rows)
        (then-Reads (reading saved_at_field read_u64) _ (put_u64 saved) (behind_saved_at s) saved s
          rest (u64-Reads saved_at_field saved (u64_of_i64-lt s.saved_at))
          (rw (
            snapshot-Reads s.snapshot fits.filled fits.within rest,
            i64-u64 s.saved_at fits.saved_at,
          ))))

version-Reads : Reads (reading version_field read_u8) (state_version ∷ []) state_version
unfolding read_u8
version-Reads rest =
    reading-ok version_field read_u8 (state_version ∷ rest) rest state_version
      (rw (read_full-append (state_version ∷ []) rest))

versioned-Reads :
    (s : SessionState) (rest : List ℕ)
    → StateFits s
    → read_versioned (state_version ∷ (behind_version s ++ rest)) ≡ ok (s, rest)
unfolding read_versioned
versioned-Reads s rest fits =
    then-Reads (reading version_field read_u8) _ (state_version ∷ []) (behind_version s)
      state_version s rest version-Reads (fields-Reads s fits rest)

-- A state whose snapshot is not empty and has at most 128 MB is written to a file that reads back as
-- that state, whatever bytes follow it.
pub decode_state-encode_state :
    (s : SessionState) (junk : List ℕ)
    → StateFits s
    → (bytes : List ℕ) × (encode_state s ≡ ok bytes) × (decode_state (bytes ++ junk) ≡ ok s)
unfolding encode_state decode_state text_eq
decode_state-encode_state s junk fits =
    let nonzero : (length s.snapshot == 0) ≡ false = ground (arith, fits.filled) in
    let within : ltb max_state_snapshot_bytes (length s.snapshot) ≡ false =
      ground (arith, fits.within) in
    let long : ltb (length (put_state s ++ junk)) 4 ≡ false = ground arith in
    (put_state s, rw (nonzero, within), rw (long, versioned-Reads s junk fits))
