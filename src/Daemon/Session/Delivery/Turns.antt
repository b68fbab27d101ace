-- ===== src/Daemon/Session/Delivery/Turns.antt =====
-- Every turn of the loop keeps the invariant of delivery.
use hauntty.Prelude.{
  ℕ, ◌≡◌, refl, Bool, true, false, List, [], ◌∷◌, Option, none, some, ℤ, arith, Bool-cases, inl,
  inr, length, ltb,
}
use hauntty.Daemon.Session.Writers.{write_step-IsServed, write_step-IsSound}
use hauntty.Daemon.Session.State.{Chunk, Loop, Screen, size, prune_top, top, accept, flush}
use hauntty.Daemon.Session.Steps.{
  Action, attach_req, detach_req, resize_req, kick_req, client_info_req, stop_req, Event,
  pty_output, pty_closed, feed_taken, feed_applied, client_ready, action, write, cut_off, stop,
  exit, act, reads_pty, take_feed, turn, apply_feed, write_client, loop_turn, step, run,
}
use hauntty.Daemon.Session.Delivery.{core, Delivers, Settled, clear-Delivers}
use hauntty.Daemon.Session.Delivery.Queue.{accept-Delivers}
use hauntty.Daemon.Session.Delivery.Roster.{change-Delivers, change-IsSound}
use hauntty.Daemon.Session.Delivery.Closing.{cut_off-IsSound, leave-IsSound, for_each-Settled}
use hauntty.Daemon.Session.Delivery.Upkeep.{prune_top-Delivers, top-Delivers}
use hauntty.Daemon.Session.Delivery.Actions.{
  attach-Delivers, detach-Delivers, kick-Delivers, resize_client-Delivers,
}

-- What holds in every state: the order of each client's stream, and while the loop runs the invariant.
pub record Inv (s : Loop) : Type 0 where
  pub settled : Settled (core s)
  pub running : s.finished ≡ false → Delivers (core s)

Delivers-Inv : (s : Loop) → Delivers (core s) → Inv s
Delivers-Inv s d = record { settled = record { sound = d.sound }; running = λ _. d }

stop-Inv : (s : Loop) → Delivers (core s) → Inv (stop s)
unfolding stop flush
stop-Inv s d = record {
  settled = for_each-Settled (core s) d cut_off cut_off-IsSound;
  running = λ e. cc;
}

exit-Inv : (code : ℤ) (s : Loop) → Delivers (core s) → Inv (exit code s)
unfolding exit flush
exit-Inv code s d = record {
  settled = for_each-Settled (core s) d _ (λ c l. leave-IsSound _ c l refl);
  running = λ e. cc;
}

act-Inv : (screen : Screen) (a : Action) (s : Loop) → Delivers (core s) → Inv (act screen a s).0
unfolding act
act-Inv screen (attach_req spec) s d = Delivers-Inv _ (attach-Delivers screen spec s d)
act-Inv screen (detach_req r) s d = Delivers-Inv _ (detach-Delivers r s d)
act-Inv screen (resize_req r size) s d = Delivers-Inv _ (resize_client-Delivers r size s d)
act-Inv screen (kick_req id) s d = Delivers-Inv _ (kick-Delivers id s d)
act-Inv screen client_info_req s d = Delivers-Inv _ d
act-Inv screen stop_req s d = stop-Inv s d

pub reads_pty-idle : (s : Loop) → reads_pty s ≡ true → s.pending_output ≡ none
reads_pty-idle s e = ground arith

accept-core :
    (d : Chunk) (s : Loop)
    → Delivers (core s)
    → s.pending_output ≡ none
    → Delivers (core (accept d s))
unfolding accept
accept-core chunk s d idle = clear-Delivers _ (accept-Delivers (core s) d chunk idle)

take_feed-Delivers :
    (o : Option Chunk) (s : Loop) → Delivers (core s) → Delivers (core (take_feed o s))
unfolding take_feed
take_feed-Delivers none s d = d
take_feed-Delivers (some chunk) s d = elim (Bool-cases (ltb (length s.feed_ch) 64)) [
  | inl e ↦ rw e d
  | inr e ↦ rw e d
]

turn-Inv : (screen : Screen) (e : Event) (s : Loop) → Delivers (core s) → Inv (turn screen e s)
unfolding turn
turn-Inv screen (pty_output chunk) s d = elim (Bool-cases (reads_pty s)) [
  | inl ready ↦ rw (ready) (Delivers-Inv _ (accept-core chunk s d (reads_pty-idle s ready)))
  | inr busy ↦ rw (busy) (Delivers-Inv s d)
]
turn-Inv screen (pty_closed code) s d = elim (Bool-cases (reads_pty s)) [
  | inl ready ↦ rw ready (exit-Inv code s d)
  | inr busy ↦ rw busy (Delivers-Inv s d)
]
turn-Inv screen feed_taken s d = Delivers-Inv _ (take_feed-Delivers s.pending_feed s d)
turn-Inv screen (action a) s d = act-Inv screen a (prune_top s) (prune_top-Delivers s d)
turn-Inv screen feed_applied s d = Delivers-Inv s d
turn-Inv screen client_ready s d = Delivers-Inv s d
turn-Inv screen (write r b) s d = Delivers-Inv s d

loop_turn-Inv : (screen : Screen) (e : Event) (s : Loop) → Inv s → Inv (loop_turn screen e s)
unfolding loop_turn
loop_turn-Inv screen e s v = elim (Bool-cases s.finished) [
  | inl over ↦ simp over v
  | inr goes ↦ simp goes (turn-Inv screen e (top s) (top-Delivers s (v.running goes)))
]

apply_feed-Inv : (cs : List Chunk) (s : Loop) → Inv s → Inv (apply_feed cs s)
unfolding apply_feed
apply_feed-Inv [] s v = v
apply_feed-Inv (c ∷ cs) s v = record { settled = v.settled; running = v.running }

write_client-Inv : (r : ℕ) (b : Bool) (s : Loop) → Inv s → Inv (write_client r b s)
unfolding write_client
write_client-Inv r b s v =
    let served = write_step-IsServed b (s.heap r) in
    let sound = write_step-IsSound b (s.heap r) in
    record {
      settled = record { sound = change-IsSound (core s) r _ served sound v.settled.sound };
      running = λ goes. change-Delivers (core s) r _ served sound (v.running goes);
    }

-- Every step keeps the invariant, whatever the pty, the callers and the writers do.
pub step-Inv : (screen : Screen) (e : Event) (s : Loop) → Inv s → Inv (step screen e s)
unfolding step
step-Inv screen feed_applied s v = apply_feed-Inv s.feed_ch s v
step-Inv screen (write r b) s v = write_client-Inv r b s v
step-Inv screen (pty_output d) s v = loop_turn-Inv screen (pty_output d) s v
step-Inv screen (pty_closed code) s v = loop_turn-Inv screen (pty_closed code) s v
step-Inv screen feed_taken s v = loop_turn-Inv screen feed_taken s v
step-Inv screen client_ready s v = loop_turn-Inv screen client_ready s v
step-Inv screen (action a) s v = loop_turn-Inv screen (action a) s v

pub run-Inv : (screen : Screen) (es : List Event) (s : Loop) → Inv s → Inv (run screen es s)
unfolding run
run-Inv screen [] s v = v
run-Inv screen (e ∷ es) s v = run-Inv screen es (step screen e s) (step-Inv screen e s v)
