-- ===== src/Daemon/Session/Guarantees.antt =====
-- What the session promises its clients, in every state that a run can reach.
use hauntty.Prelude.{
  ℕ, ◌≡◌, refl, true, false, List, [], ◌∷◌, ◌++◌, Text, drop, arith, if◌then◌else◌,
}
use hauntty.Daemon.Resize.{TermSize}
use hauntty.Daemon.Clients.{contains}
use hauntty.Daemon.Session.State.{Loop, Screen, opt_list}
use hauntty.Daemon.Session.Streams.{outputs, stream, IsSound, Begins}
use hauntty.Daemon.Session.Steps.{Event, run, step}
use hauntty.Daemon.Session.Start.{start_session, blank}
use hauntty.Daemon.Session.Delivery.Turns.{Inv, run-Inv}
use hauntty.Daemon.Session.Feed.{fed, intake}
use hauntty.Daemon.Session.Feed.Turns.{FeedInv, step-FeedInv}

blank-IsSound : IsSound blank []
unfolding stream outputs
blank-IsSound = record {
  no_fault = refl;
  written = record { rest = []; joined = refl };
  queued = λ _. record { rest = []; joined = refl };
  final_quiet = tt;
}

start-Inv :
    (name : Text) (pid : ℕ) (policy : Text) (initial : TermSize)
    → Inv (start_session name pid policy initial)
unfolding contains
start-Inv name pid policy initial = record {
  settled = record { sound = λ r. blank-IsSound };
  running = λ _. record {
    distinct = tt;
    waiting = tt;
    subset = λ r e. cc;
    fresh = λ r e. cc;
    unowed = λ _ r. refl;
    bounded = λ r. omega arith;
    served = λ r e. cc;
    sound = λ r. blank-IsSound;
  };
}

run-FeedInv : (screen : Screen) (es : List Event) (s : Loop) → FeedInv s → FeedInv (run screen es s)
unfolding run
run-FeedInv screen [] s v = v
run-FeedInv screen (e ∷ es) s v =
    run-FeedInv screen es (step screen e s) (step-FeedInv screen e s v)

module _ (screen : Screen) (name : Text) (pid : ℕ) (policy : Text) (initial : TermSize)
    (es : List Event) where
  abbrev pub reached : Loop
  reached = run screen es (start_session name pid policy initial)

  pub reached-Inv : Inv reached
  reached-Inv = run-Inv screen es _ (start-Inv name pid policy initial)

  -- No run sends on a closed channel of a client, full or not, or closes one twice.
  pub run-no_fault : (r : ℕ) → (reached.heap r).fault ≡ false
  run-no_fault r = (reached-Inv.settled.sound r).no_fault

  -- In every run, the pty output that was written to a client's connection begins the output that
  -- the loop took from the pty since the client attached: in order, without a gap, nothing twice.
  pub run-written :
      (r : ℕ) → Begins (outputs (reached.heap r).sent) (drop (reached.started r) reached.accepted)
  run-written r = (reached-Inv.settled.sound r).written

  -- While the loop runs, a client in its list whose writer runs has all pty output since it attached:
  -- what was written to its connection, then what its channel holds, then the chunk that is pending for it.
  pub run-current :
      (r : ℕ)
      → reached.finished ≡ false
      → contains r reached.clients ≡ true
      → (reached.heap r).write_done ≡ false
      → stream (reached.heap r)
          ++ (if contains r reached.pending_clients then opt_list reached.pending_output else [])
        ≡ drop (reached.started r) reached.accepted
  run-current r goes m writes = ((reached-Inv.running goes).served r m).current writes

  -- While the loop runs, the terminal was fed all that the loop took from the pty, in order, less what
  -- waits in the feed channel and the chunk that the loop holds back.
  pub run-InStep : reached.finished ≡ false → intake reached ≡ reached.accepted
  unfolding fed
  run-InStep = run-FeedInv screen es (start_session name pid policy initial) (λ _. refl)
