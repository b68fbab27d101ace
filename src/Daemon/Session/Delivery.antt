-- ===== src/Daemon/Session/Delivery.antt =====
-- The part of the loop's state that the delivery of output depends on, and its invariant.
pub mod Queue
pub mod Roster
pub mod Closing
pub mod Upkeep
pub mod Actions
pub mod Turns
use hauntty.Prelude.{
  ℕ, ◌≤◌, ◌<◌, ◌≡◌, refl, sym, Bool, true, false, not, ◌&&◌, List, [], ◌∷◌, ◌++◌, Option, none,
  some, arith, if◌then◌else◌, length, drop, Bool-cases, inl, inr,
}
use hauntty.Protocol.Messages.{Message}
use hauntty.Daemon.Clients.{
  Client, Heap, contains, finish, notify, prune_finished_clients, queue_output, queue_one,
  is_blocked,
}
use hauntty.Daemon.Clients.Laws.{
  Distinct, heap-queue_output, pending-queue_output, queue_output-Distinct, heap-notify,
  heap-prune_finished_clients, kept-prune_finished_clients, kept-Distinct,
  pending-prune_finished_clients, prune-Distinct,
}
use hauntty.Daemon.Session.Streams.{IsServed, IsSound, IsQuiet}
use hauntty.Daemon.Session.Clients.{
  notify_one-IsServed, notify_one-IsSound, queue_one-IsServed, queue_one-IsSound, finish-IsSound,
}
use hauntty.Daemon.Session.State.{Chunk, Loop, output, opt_list, still_pending}

pub record Core : Type 0 where
  pub heap : Heap
  pub clients : List ℕ
  pub pending_output : Option Chunk
  pub pending_clients : List ℕ
  pub next_ref : ℕ
  pub accepted : List Chunk
  pub started : ℕ → ℕ

abbrev pub core : Loop → Core
core s = record {
  heap = s.heap;
  clients = s.clients;
  pending_output = s.pending_output;
  pending_clients = s.pending_clients;
  next_ref = s.next_ref;
  accepted = s.accepted;
  started = s.started;
}

-- The output since client r attached, and what of it waits for room in its channel.
abbrev pub since : Core → ℕ → List Chunk
since v r = drop (v.started r) v.accepted

abbrev pub due : Core → ℕ → List Chunk
due v r = if contains r v.pending_clients then opt_list v.pending_output else []

-- Every client that ever attached has, in order and with no gap, a beginning of the output since then.
pub record Settled (v : Core) : Type 0 where
  pub sound : (r : ℕ) → IsSound (v.heap r) (since v r)

pub record Delivers (v : Core) : Type 0 where
  pub distinct : Distinct v.clients
  pub waiting : Distinct v.pending_clients
  pub subset : (r : ℕ) → contains r v.pending_clients ≡ true → contains r v.clients ≡ true
  pub fresh : (r : ℕ) → contains r v.clients ≡ true → r < v.next_ref
  pub unowed : v.pending_output ≡ none → (r : ℕ) → contains r v.pending_clients ≡ false
  pub bounded : (r : ℕ) → v.started r ≤ length v.accepted
  pub served : (r : ℕ) → contains r v.clients ≡ true → IsServed (v.heap r) (due v r) (since v r)
  pub sound : (r : ℕ) → IsSound (v.heap r) (since v r)

module _ (msg : Message) (quiet : IsQuiet msg) (v : Core) (d : Delivers v) where
  abbrev notified : Core
  notified = record v { heap = notify v.clients msg v.heap }

  notified-IsSound : (r : ℕ) → IsSound (notified.heap r) (since v r)
  notified-IsSound r = elim (Bool-cases (contains r v.clients)) [
    | inl m ↦
        rw (heap-notify r v.clients msg v.heap d.distinct, m)
          (notify_one-IsSound msg quiet (v.heap r) (due v r) (since v r) (d.served r m) (d.sound r))
    | inr m ↦ rw (heap-notify r v.clients msg v.heap d.distinct, m) (d.sound r)
  ]

  pub notify-Delivers : Delivers notified
  notify-Delivers = record {
    distinct = d.distinct;
    waiting = d.waiting;
    subset = d.subset;
    fresh = d.fresh;
    unowed = d.unowed;
    bounded = d.bounded;
    served = λ r m.
        rw (heap-notify r v.clients msg v.heap d.distinct, m)
          (notify_one-IsServed msg quiet (v.heap r) (due v r) (since v r) (d.served r m));
    sound = notified-IsSound;
  }

module _ (v : Core) (d : Delivers v) where
  abbrev cleared : Core
  cleared = record v { pending_output = still_pending v.pending_clients v.pending_output }

  still_pending-none :
      (cs : List ℕ) (o : Option Chunk)
      → still_pending cs o ≡ none
      → (o ≡ none → (r : ℕ) → contains r cs ≡ false)
      → (r : ℕ) → contains r cs ≡ false
  unfolding contains
  still_pending-none [] o e u r = refl
  still_pending-none (c ∷ cs) o e u r = u e r

  still_pending-due :
      (cs : List ℕ) (o : Option Chunk) (r : ℕ)
      → (if contains r cs then opt_list (still_pending cs o) else [])
        ≡ (if contains r cs then opt_list o else [])
  unfolding contains
  still_pending-due [] o r = refl
  still_pending-due (c ∷ cs) o r = refl

  pub clear-Delivers : Delivers cleared
  clear-Delivers = record {
    distinct = d.distinct;
    waiting = d.waiting;
    subset = d.subset;
    fresh = d.fresh;
    unowed = λ e. still_pending-none v.pending_clients v.pending_output e d.unowed;
    bounded = d.bounded;
    served = λ r m. rw (still_pending-due v.pending_clients v.pending_output r) (d.served r m);
    sound = d.sound;
  }
