-- ===== src/Client/Attach.antt =====
-- The attached client: internal/client/attach.go. What the terminal's reads give, whether writes to the
-- daemon succeed, and the metadata of the terminal are parameters; output to the terminal is the list of
-- bytes written.
pub mod Search
pub mod Input
pub mod Cursor
mod Examples
use hauntty.Prelude.{
  ℕ, zero, suc, ◌+◌, ◌-◌, ◌*◌, ◌%◌, ◌^◌, Bool, true, false, not, ◌&&◌, ◌||◌, List, [], ◌∷◌, ◌++◌,
  Option, none, some, Text, codes, ℤ, pos, ltb, leb, ◌==◌, if◌then◌else◌, take, drop, length,
}
use hauntty.Protocol.Messages.{Message, Attach, Attached}
use hauntty.Daemon.Session.Decimal.{decimal}
use hauntty.Client.Keys.Detach.{DetachKey}

-- bytes.IndexByte and bytes.Index; `none` is -1.
unfoldable pub index_byte : ℕ → List ℕ → Option ℕ
index_byte b [] = none
index_byte b (c ∷ cs) =
    if c == b then some 0 else elim (index_byte b cs) [ none ↦ none | some i ↦ some (suc i) ]

unfoldable pub starts_with : List ℕ → List ℕ → Bool
starts_with [] bytes = true
starts_with (b ∷ bs) [] = false
starts_with (b ∷ bs) (c ∷ cs) = b == c && starts_with bs cs

unfoldable pub index : List ℕ → List ℕ → Option ℕ
unfolding starts_with
index seq [] = if starts_with seq [] then some 0 else none
index seq (c ∷ cs) =
    if starts_with seq (c ∷ cs)
    then some 0
    else elim (index seq cs) [ none ↦ none | some i ↦ some (suc i) ]

abbrev pub raw_index : DetachKey → List ℕ → Option ℕ
raw_index dk bytes = if dk.has_raw then index_byte dk.raw_byte bytes else none

unfoldable pub find_detach : List ℕ → DetachKey → Option ℕ
unfolding index_byte index
find_detach bytes dk = elim (raw_index dk bytes) [ some i ↦ some i | none ↦ index dk.csi_seq bytes ]

-- What the goroutine of forwardHostInput writes to the connection: messages, and the close behind Detach.
pub data Forwarded : Type 0 where
  input_message : List ℕ → Forwarded
  detach_and_close : Forwarded

-- A read with the detach key at `i`.
unfoldable pub forward_detach : Bool → Bool → List ℕ → List Forwarded
forward_detach read_only succeeds [] = detach_and_close ∷ []
forward_detach true succeeds (b ∷ before) = detach_and_close ∷ []
forward_detach false succeeds (b ∷ before) =
    input_message (b ∷ before) ∷ (if succeeds then detach_and_close ∷ [] else [])

-- The loop over the reads, until one fails; `succeeds n` is the write of the read with n behind it.
unfoldable pub forward_host_input : DetachKey → Bool → (ℕ → Bool) → List (List ℕ) → List Forwarded
unfolding find_detach forward_detach
forward_host_input dk read_only succeeds [] = []
forward_host_input dk read_only succeeds ([] ∷ reads) =
    forward_host_input dk read_only succeeds reads
forward_host_input dk read_only succeeds ((b ∷ bytes) ∷ reads) =
    let rest = forward_host_input dk read_only succeeds reads in
    elim (find_detach (b ∷ bytes) dk) [
      | some i ↦ forward_detach read_only (succeeds (length reads)) (take i (b ∷ bytes))
      | none ↦
          if read_only
          then rest
          else input_message (b ∷ bytes) ∷ (if succeeds (length reads) then rest else [])
    ]

pub record AttachMetadata : Type 0 where
  pub cols : ℕ
  pub rows : ℕ
  pub xpixel : ℕ
  pub ypixel : ℕ
  pub env : List Text
  pub cwd : Text

pub record AttachOpts : Type 0 where
  pub name : Text
  pub command : List Text
  pub detach_key : DetachKey
  pub read_only : Bool
  pub restore : Bool

unfoldable pub attach_request_from_opts : AttachOpts → AttachMetadata → Attach
attach_request_from_opts opts metadata = record {
  name = opts.name;
  command = opts.command;
  env = metadata.env;
  cwd = metadata.cwd;
  cols = metadata.cols;
  rows = metadata.rows;
  xpixel = metadata.xpixel;
  ypixel = metadata.ypixel;
  read_only = opts.read_only;
  restore = opts.restore;
  scrollback = 0;
}

-- The buffer of readCursorRow behind its reads, until one ends in `R` or the 32 bytes are full.
unfoldable pub last_byte : List ℕ → ℕ
last_byte [] = 0
last_byte (b ∷ []) = b
last_byte (b ∷ c ∷ cs) = last_byte (c ∷ cs)

unfoldable pub read_response : List ℕ → List (List ℕ) → List ℕ
unfolding last_byte
read_response buf [] = buf
read_response buf (bytes ∷ reads) =
    let next = buf ++ take (32 - length buf) bytes in
    let rest = read_response next reads in
    if last_byte next == 82 || not (ltb (length next) 32) then next else rest

-- What stands behind the last `[`.
unfoldable pub after_last : ℕ → List ℕ → Option (List ℕ)
after_last b [] = none
after_last b (c ∷ cs) = elim (after_last b cs) [
  | some rest ↦ some rest
  | none ↦ if c == b then some cs else none
]

-- bytes.Cut: what stands before the first `;`.
unfoldable pub cut : ℕ → List ℕ → Option (List ℕ)
cut b [] = none
cut b (c ∷ cs) =
    if c == b then some [] else elim (cut b cs) [ none ↦ none | some before ↦ some (c ∷ before) ]

-- The digits, as an int of 64 bits that wraps; `none` is a byte that is no digit.
unfoldable pub parse_row : ℕ → List ℕ → Option ℕ
parse_row row [] = some row
parse_row row (b ∷ bytes) =
    let rest = parse_row ((row * 10 + (b - 48)) % 2 ^ 64) bytes in
    if ltb b 48 || ltb 57 b then none else rest

-- `row <= 0` for the int.
abbrev pub positive_or : ℕ → Option ℕ → ℕ
positive_or fallback none = fallback
positive_or fallback (some row) = if row == 0 || leb (2 ^ 63) row then fallback else row

abbrev pub row_before : ℕ → Option (List ℕ) → ℕ
row_before fallback none = fallback
row_before fallback (some before) = positive_or fallback (parse_row 0 before)

abbrev pub row_in : ℕ → Option (List ℕ) → ℕ
row_in fallback none = fallback
row_in fallback (some resp) = row_before fallback (cut 59 resp)

unfoldable pub cursor_row_of : ℕ → List ℕ → ℕ
unfolding after_last cut parse_row
cursor_row_of fallback resp = row_in fallback (after_last 91 resp)

unfoldable pub read_cursor_row : ℕ → List (List ℕ) → ℕ
unfolding read_response cursor_row_of
read_cursor_row fallback reads = cursor_row_of fallback (read_response [] reads)

-- ESC and `[`.
abbrev pub csi : Text → Text
csi text = 27 ∷ 91 ∷ text

unfoldable pub newlines : ℕ → Text
newlines zero = []
newlines (suc n) = 10 ∷ newlines n

-- Each of `n` rows from `row` on is erased.
unfoldable pub clear_rows : ℕ → ℕ → Text
clear_rows zero row = []
clear_rows (suc n) row =
    csi (decimal row ++ (codes ";1H" ++ csi (codes "2K" ++ clear_rows n (row + 1))))

-- writeReattachScreenDump in a terminal that goes into raw mode, behind the query of the cursor.
unfoldable pub reattach_output : ℕ → ℕ → Attached → Text
unfolding newlines clear_rows
reattach_output rows cursor_row attached =
    csi (codes "999;1H" ++ newlines cursor_row)
    ++ (clear_rows rows 1 ++ (csi (codes "H") ++ attached.screen_dump))

abbrev pub is_nil : List ℕ → Bool
is_nil [] = true
is_nil (b ∷ bs) = false

unfoldable pub write_reattach_screen_dump : ℕ → List (List ℕ) → Attached → Text
unfolding reattach_output read_cursor_row
write_reattach_screen_dump rows reads attached =
    if attached.created || is_nil attached.screen_dump
    then []
    else csi (codes "6n") ++ reattach_output rows (read_cursor_row rows reads) attached

-- The end of RunAttach: the connection was closed, or the session or the daemon ended it.
pub data Ending : Type 0 where
  detached : Ending
  exit_error : ℤ → Ending

-- The loop of RunAttach with handleAttachMessage: the output to the terminal, and how it ends on a
-- connection that is closed behind the messages. The sequence that resets the terminal is left out.
unfoldable pub attach_loop : List Message → Text × Ending
attach_loop [] = ([], detached)
attach_loop (Message.output m ∷ msgs) = (m.payload ++ (attach_loop msgs).0, (attach_loop msgs).1)
attach_loop (Message.exited m ∷ msgs) = ([], exit_error m.exit_code)
attach_loop (Message.error m ∷ msgs) = ([], exit_error (pos 1))
attach_loop (msg ∷ msgs) = attach_loop msgs
