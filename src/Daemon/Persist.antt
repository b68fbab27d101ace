-- ===== src/Daemon/Persist.antt =====
-- encodeState and decodeState of internal/daemon/persist.go: the file of a session that has ended.
pub mod RoundTrip
mod Examples
use hauntty.Prelude.{
  ℕ, ◌+◌, ◌-◌, ◌*◌, ◌/◌, ◌%◌, ◌^◌, Bool, not, List, [], ◌∷◌, ◌++◌, ltb, ◌==◌, if◌then◌else◌, length,
  take, drop, codes, text_eq, ℤ, pos, negsuc, Result, ok, err, bind,
}
use hauntty.Protocol.Encoding.{
  WireError, Decoder, put_u16, put_u32, big_endian, read_full, read_u8, read_u16, read_u32,
}

-- `SavedAt` as the seconds of its Unix time.
pub record SessionState : Type 0 where
  pub cols : ℕ
  pub rows : ℕ
  pub saved_at : ℤ
  pub snapshot : List ℕ

-- The field that a read failed at.
pub data Field : Type 0 where
  version_field cols_field rows_field saved_at_field snapshot_field : Field

pub data PersistError : Type 0 where
  snapshot_is_empty file_too_short : PersistError
  snapshot_too_large unsupported_version : ℕ → PersistError
  bad_magic : List ℕ → PersistError
  read_failed : Field → WireError → PersistError

-- "HTST".
abbrev pub state_magic : List ℕ
state_magic = codes "HTST"

abbrev pub state_version : ℕ
state_version = 2

-- 128 << 20.
abbrev pub max_state_snapshot_bytes : ℕ
max_state_snapshot_bytes = 128 * 2 ^ 20

-- binary.Write of a uint64.
abbrev pub put_u64 : ℕ → List ℕ
put_u64 v = put_u32 (v / 2 ^ 32) ++ put_u32 v

-- uint64(v) and int64(u).
abbrev pub u64_of_i64 : ℤ → ℕ
u64_of_i64 (pos n) = n % 2 ^ 64
u64_of_i64 (negsuc n) = 2 ^ 64 - 1 - n % 2 ^ 64

abbrev pub i64_of_u64 : ℕ → ℤ
i64_of_u64 u = if ltb u (2 ^ 63) then pos u else negsuc (2 ^ 64 - 1 - u)

abbrev pub put_state : SessionState → List ℕ
put_state s =
    state_magic
    ++ (state_version
        ∷ (put_u16 s.cols
            ++ (put_u16 s.rows
                ++ (put_u64 (u64_of_i64 s.saved_at)
                    ++ (put_u32 (length s.snapshot % 2 ^ 32) ++ s.snapshot)))))

unfoldable pub encode_state : SessionState → Result PersistError (List ℕ)
encode_state s =
    if length s.snapshot == 0
    then err snapshot_is_empty
    else if ltb max_state_snapshot_bytes (length s.snapshot)
    then err (snapshot_too_large (length s.snapshot))
    else ok (put_state s)

-- A read of `bytes.Reader` with its error wrapped.
abbrev pub Reader : Type 0 → Type 0
Reader A = List ℕ → Result PersistError (A × List ℕ)

unfoldable pub reading : {A : Type 0} → Field → Decoder A → Reader A
reading f d bs = elim (d bs) [ ok p ↦ ok p | err e ↦ err (read_failed f e) ]

infixl 5 ◌>>=◌
abbrev pub ◌>>=◌ : {A B : Type 0} → Reader A → (A → Reader B) → Reader B
◌>>=◌ d f bs = bind (d bs) (λ p. f p.0 p.1)

abbrev pub pure : {A : Type 0} → A → Reader A
pure a bs = ok (a, bs)

abbrev pub fail : {A : Type 0} → PersistError → Reader A
fail e bs = err e

unfoldable pub read_u64 : Decoder ℕ
read_u64 bs = bind (read_full 8 bs) (λ p. ok (big_endian 0 p.0, p.1))

-- The snapshot behind its length.
unfoldable pub read_snapshot : Reader (List ℕ)
unfolding reading
read_snapshot = do
  n ← reading snapshot_field read_u32
  if n == 0
      then fail snapshot_is_empty
      else if ltb max_state_snapshot_bytes n
      then fail (snapshot_too_large n)
      else reading snapshot_field (read_full n)

-- What follows the version.
unfoldable pub read_fields : Reader SessionState
unfolding reading read_snapshot
read_fields = do
  cols ← reading cols_field read_u16
  rows ← reading rows_field read_u16
  saved_at ← reading saved_at_field read_u64
  snapshot ← read_snapshot
  pure (record { cols = cols; rows = rows; saved_at = i64_of_u64 saved_at; snapshot = snapshot })

unfoldable pub read_versioned : Reader SessionState
unfolding reading read_fields
read_versioned = do
  version ← reading version_field read_u8
  if version == state_version then read_fields else fail (unsupported_version version)

-- Bytes behind the snapshot are not looked at.
unfoldable pub decode_state : List ℕ → Result PersistError SessionState
unfolding read_versioned
decode_state bytes =
    if ltb (length bytes) 4
    then err file_too_short
    else if text_eq (take 4 bytes) state_magic
    then bind (read_versioned (drop 4 bytes)) (λ p. ok p.0)
    else err (bad_magic (take 4 bytes))
