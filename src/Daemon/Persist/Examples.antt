-- ===== src/Daemon/Persist/Examples.antt =====
-- A saved session of 80x24.
use hauntty.Prelude.{ℕ, ◌≡◌, List, [], ◌∷◌, ◌++◌, pos, ok, arith}
use hauntty.Daemon.Persist.{SessionState, encode_state, decode_state}
use hauntty.Daemon.Persist.RoundTrip.{StateFits, decode_state-encode_state}

abbrev saved : SessionState
saved = record { cols = 80; rows = 24; saved_at = pos 1764000000; snapshot = 1 ∷ 2 ∷ 3 ∷ [] }

saved-StateFits : StateFits saved
saved-StateFits = record {
  cols = omega arith;
  rows = omega arith;
  saved_at = omega arith;
  filled = omega arith;
  within = omega arith;
}

decode_state-encode_state_example :
    (bytes : List ℕ) × (encode_state saved ≡ ok bytes) × (decode_state (bytes ++ 9 ∷ []) ≡ ok saved)
decode_state-encode_state_example = decode_state-encode_state saved (9 ∷ []) saved-StateFits
