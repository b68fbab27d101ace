-- ===== src/Daemon/Gather/Examples.antt =====
-- A read of 1500 bytes, a small one behind it, and the timer.
use hauntty.Prelude.{ℕ, zero, suc, ◌≤◌, ◌≡◌, refl, false, List, [], ◌∷◌, ◌++◌, length, All}
use hauntty.Daemon.Gather.{
  Bytes, Input, read, timer, gather_run, gather_step, step_from, begin, start, append_read, idle,
  pty_batch_size,
}
use hauntty.Daemon.Gather.Whole.{joined, held, gather_run-IsWhole}
use hauntty.Daemon.Gather.Sizes.{gather_run-IsBatch}

abbrev zeros : ℕ → Bytes
zeros zero = []
zeros (suc n) = 0 ∷ zeros n

abbrev inputs : List Input
inputs = read (zeros 1500) ∷ read (7 ∷ []) ∷ timer ∷ []

gathered : (gather_run inputs idle).cut ≡ false
unfolding gather_run gather_step step_from begin start append_read
gathered = refl

gather_run-IsWhole_example :
    joined (gather_run inputs idle).sent ++ held (gather_run inputs idle).phase
    ≡ joined (gather_run inputs idle).taken
gather_run-IsWhole_example = gather_run-IsWhole inputs gathered

gather_run-IsBatch_example : All (λ b. length b ≤ pty_batch_size) (gather_run inputs idle).sent
gather_run-IsBatch_example = gather_run-IsBatch inputs
