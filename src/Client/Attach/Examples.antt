-- ===== src/Client/Attach/Examples.antt =====
-- Typed input with the detach key, and a report of the cursor.
use hauntty.Prelude.{◌≡◌, ◌≤◌, length, refl, [], ◌∷◌, ◌++◌, true, false, codes, map, arith, ℕ, List}
use hauntty.Daemon.Connection.{Attachment, stream_loop}
use hauntty.Daemon.Connection.Detaching.{ended}
use hauntty.Daemon.Session.Decimal.{decimal, decimal_digits}
use hauntty.Client.Keys.Detach.{DetachKey}
use hauntty.Client.Attach.{
  index_byte, index, starts_with, find_detach, forward_detach, forward_host_input, input_message,
  detach_and_close, read_cursor_row,
}
use hauntty.Client.Attach.Input.{IsTyped, to_message, delivered, forward_host_input-IsTyped}
use hauntty.Client.Attach.Cursor.{report, read_cursor_row-report}

abbrev ctrl_backslash : DetachKey
ctrl_backslash = record { raw_byte = 0x1c; has_raw = true; csi_seq = 0x1b ∷ codes "[92;5u" }

abbrev attachment : Attachment
attachment = record { session = 1; client = 2; read_only = false }

abbrev reads : List (List ℕ)
reads = codes "ls" ∷ (13 ∷ 0x1c ∷ codes "rm") ∷ codes "x" ∷ []

forwarded :
    forward_host_input ctrl_backslash false (λ n. true) reads
    ≡ input_message (codes "ls") ∷ input_message (13 ∷ []) ∷ detach_and_close ∷ []
unfolding forward_host_input forward_detach find_detach index_byte index starts_with
forwarded = refl

forward_host_input-IsTyped_example :
    IsTyped ctrl_backslash reads
      (delivered attachment (forward_host_input ctrl_backslash false (λ n. true) reads))
    × (ended (
          stream_loop attachment
            (map to_message (forward_host_input ctrl_backslash false (λ n. true) reads)))
        ≡ attachment ∷ [])
forward_host_input-IsTyped_example = forward_host_input-IsTyped attachment ctrl_backslash refl reads

-- The CSI sequence before a raw byte in one read is forwarded: the raw byte is looked for first.
raw_first :
    forward_host_input ctrl_backslash false
      (λ n. true)
      ((0x1b ∷ codes "[92;5urm" ++ 0x1c ∷ []) ∷ [])
    ≡ input_message (0x1b ∷ codes "[92;5urm") ∷ detach_and_close ∷ []
unfolding forward_host_input find_detach forward_detach index_byte
raw_first = refl

short : length (codes "x" ++ report 12 7) ≤ 32
unfolding decimal decimal_digits
short = omega arith

read_cursor_row-report_example : read_cursor_row 24 ((codes "x" ++ report 12 7) ∷ []) ≡ 12
read_cursor_row-report_example =
    read_cursor_row-report 24 (codes "x") 12 7 [] (omega arith) (omega arith) short
