-- ===== src/Daemon/Gather/Sizes.antt =====
-- No batch is longer than the buffers that the loop takes it into.
use hauntty.Prelude.{
  ℕ, zero, suc, ◌-◌, ◌≤◌, ◌<◌, List, [], ◌∷◌, ◌++◌, ltb, ◌==◌, length, take, drop, All, All-append,
  length-append, length-take, length-drop, Bool-cases, inl, inr, arith,
}
use hauntty.Daemon.Gather.{
  Bytes, Phase, waiting, gathering, returned, Gather, Input, read, reads_closed, timer, done, send,
  start, begin, append_read, step_from, gather_step, gather_run, idle, pty_batch_size,
  pty_batch_threshold,
}

abbrev IsBatch : Bytes → Type 0
IsBatch b = length b ≤ pty_batch_size

abbrev IsOpen : Phase → Type 0
IsOpen (gathering batch) = length batch < pty_batch_size
IsOpen _ = Unit {0}

record IsSmall (g : Gather) : Type 0 where
  small : All IsBatch g.sent
  unfilled : IsOpen g.phase

send-IsSmall : (b : Bytes) (g : Gather) → All IsBatch g.sent → IsBatch b → IsSmall (send b g)
send-IsSmall b g s h = record {
  small = All-append IsBatch g.sent (b ∷ []) s (h, tt);
  unfilled = tt;
}

start-IsSmall :
    (fuel : ℕ) (first : Bytes) (g : Gather)
    → length first ≤ fuel
    → All IsBatch g.sent
    → IsSmall (start fuel first g)
unfolding start
start-IsSmall zero first g h s = send-IsSmall first g s (omega arith)
start-IsSmall (suc fuel) first g h s = elim (Bool-cases (ltb (length first) pty_batch_threshold)) [
  | inl e ↦ rw e (send-IsSmall first g s (ground arith))
  | inr e ↦ elim (Bool-cases (ltb pty_batch_size (length first))) [
    | inl f ↦
        rw (e, f)
          (start-IsSmall fuel (drop pty_batch_size first) (send (take pty_batch_size first) g)
            (omega (arith, length-drop pty_batch_size first))
            (send-IsSmall (take pty_batch_size first) g s
              (omega (arith, length-take pty_batch_size first))).small)
    | inr f ↦ elim (Bool-cases (length first == pty_batch_size)) [
      | inl k ↦ rw (e, f, k) (send-IsSmall first g s (ground arith))
      | inr k ↦ rw (e, f, k) (record { small = s; unfilled = ground arith })
    ]
  ]
]

append_read-IsSmall :
    (batch next : Bytes) (g : Gather)
    → length batch < pty_batch_size
    → All IsBatch g.sent
    → IsSmall (append_read batch next g)
unfolding append_read begin
append_read-IsSmall batch next g h s =
    let remaining = pty_batch_size - length batch in
    elim (Bool-cases (ltb remaining (length next))) [
      | inl e ↦ rw e (
          start-IsSmall (length (drop remaining next)) (drop remaining next)
            (send (batch ++ take remaining next) g) (omega arith)
            (send-IsSmall (batch ++ take remaining next) g s (
              omega (
                arith,
                length-append batch (take remaining next),
                length-take remaining next,
              ))).small)
      | inr e ↦ elim (Bool-cases (length (batch ++ next) == pty_batch_size)) [
        | inl k ↦
            rw (e, k) (send-IsSmall (batch ++ next) g s (ground (arith, length-append batch next)))
        | inr k ↦
            rw (e, k) (record { small = s; unfilled = ground (arith, length-append batch next) })
      ]
    ]

step_from-IsSmall :
    (p : Phase) (i : Input) (g : Gather) → IsOpen p → IsSmall g → IsSmall (step_from p i g)
unfolding step_from begin
step_from-IsSmall waiting (read d) g o v = start-IsSmall (length d) d _ (omega arith) v.small
step_from-IsSmall waiting reads_closed g o v = record { small = v.small; unfilled = tt }
step_from-IsSmall waiting timer g o v = v
step_from-IsSmall waiting done g o v = record { small = v.small; unfilled = tt }
step_from-IsSmall (gathering batch) (read d) g o v =
    append_read-IsSmall batch d (record g { taken = g.taken ++ d ∷ [] }) o v.small
step_from-IsSmall (gathering batch) reads_closed g o v = record {
  small = (send-IsSmall batch g v.small (omega arith)).small;
  unfilled = tt;
}
step_from-IsSmall (gathering batch) timer g o v = send-IsSmall batch g v.small (omega arith)
step_from-IsSmall (gathering batch) done g o v = record { small = v.small; unfilled = tt }
step_from-IsSmall returned i g o v = v

run-IsSmall : (is : List Input) (g : Gather) → IsSmall g → IsSmall (gather_run is g)
unfolding gather_run gather_step
run-IsSmall [] g v = v
run-IsSmall (i ∷ is) g v =
    run-IsSmall is (step_from g.phase i g) (step_from-IsSmall g.phase i g v.unfilled v)

-- In every run no batch is longer than 64 KB, whatever the lengths of the reads.
pub gather_run-IsBatch :
    (is : List Input) → All (λ b. length b ≤ pty_batch_size) (gather_run is idle).sent
gather_run-IsBatch is = (run-IsSmall is idle (record { small = tt; unfilled = tt })).small
