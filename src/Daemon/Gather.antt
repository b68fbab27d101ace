-- ===== src/Daemon/Gather.antt =====
-- gatherPTYReads of internal/daemon/session_lifecycle.go: small reads of the pty pass as they are, and
-- larger ones are gathered into batches. One `step` is one ready case of a select; a batch that is
-- sent stands in `sent` at once.
pub mod Whole
pub mod Sizes
mod Examples
use hauntty.Prelude.{
  ℕ, zero, suc, ◌*◌, ◌-◌, ◌^◌, Bool, true, false, ◌||◌, List, [], ◌∷◌, ◌++◌, ltb, ◌==◌,
  if◌then◌else◌, length, take, drop,
}

abbrev pub Bytes : Type 0
Bytes = List ℕ

abbrev pub pty_batch_size : ℕ
pty_batch_size = 64 * 1024

abbrev pub pty_batch_threshold : ℕ
pty_batch_threshold = 1024

-- Waiting for a first read, gathering behind one, or returned.
pub data Phase : Type 0 where
  waiting : Phase
  gathering : Bytes → Phase
  returned : Phase

pub record Gather : Type 0 where
  pub phase : Phase
  pub sent : List Bytes
  -- All reads that were taken, and whether `done` cut the gathering short.
  pub taken : List Bytes
  pub cut : Bool

pub data Input : Type 0 where
  read : Bytes → Input
  reads_closed timer done : Input

abbrev pub send : Bytes → Gather → Gather
send b g = record g { phase = waiting; sent = g.sent ++ b ∷ [] }

-- The turns of the outer loop from a first read, until it waits for another. Each turn but the last
-- takes a whole batch off, so that the number of bytes is fuel enough.
unfoldable pub start : ℕ → Bytes → Gather → Gather
start zero first g = send first g
start (suc fuel) first g =
    let rest = start fuel (drop pty_batch_size first) (send (take pty_batch_size first) g) in
    if ltb (length first) pty_batch_threshold
    then send first g
    else if ltb pty_batch_size (length first)
    then rest
    else if length first == pty_batch_size
    then send first g
    else record g { phase = gathering first }

unfoldable pub begin : Bytes → Gather → Gather
begin first g = start (length first) first g

-- A read behind a batch.
unfoldable pub append_read : Bytes → Bytes → Gather → Gather
append_read batch next g =
    let remaining = pty_batch_size - length batch in
    if ltb remaining (length next)
    then begin (drop remaining next) (send (batch ++ take remaining next) g)
    else if length (batch ++ next) == pty_batch_size
    then send (batch ++ next) g
    else record g { phase = gathering (batch ++ next) }

unfoldable pub step_from : Phase → Input → Gather → Gather
unfolding begin append_read
step_from waiting (read d) g = begin d (record g { taken = g.taken ++ d ∷ [] })
step_from waiting reads_closed g = record g { phase = returned }
step_from waiting timer g = g
step_from waiting done g = record g { phase = returned; cut = true }
step_from (gathering batch) (read d) g =
    append_read batch d (record g { taken = g.taken ++ d ∷ [] })
step_from (gathering batch) reads_closed g = record (send batch g) { phase = returned }
step_from (gathering batch) timer g = send batch g
step_from (gathering batch) done g = record g { phase = returned; cut = true }
step_from returned i g = g

unfoldable pub gather_step : Input → Gather → Gather
unfolding step_from
gather_step i g = step_from g.phase i g

unfoldable pub gather_run : List Input → Gather → Gather
unfolding gather_step
gather_run [] g = g
gather_run (i ∷ is) g = gather_run is (gather_step i g)

abbrev pub idle : Gather
idle = record { phase = waiting; sent = []; taken = []; cut = false }
