-- ===== src/Daemon/Session/Delivery/Queue.antt =====
-- Pruning, queueing again, and taking a chunk from the pty keep the invariant of delivery.
use hauntty.Prelude.{
  ℕ, ◌≡◌, sym, true, false, not, ◌&&◌, [], ◌∷◌, ◌++◌, none, some, arith, if◌then◌else◌,
  length-append, drop-append_le, Bool-cases, inl, inr, ap, ◌∙◌, append-nil,
}
use hauntty.Daemon.Clients.{
  Client, contains, finish, prune_finished_clients, queue_output, queue_one, is_blocked, Pruned,
}
use hauntty.Daemon.Clients.Laws.{
  heap-queue_output, pending-queue_output, queue_output-Distinct, heap-prune_finished_clients,
  kept-prune_finished_clients, kept-Distinct, pending-prune_finished_clients, prune-Distinct,
}
use hauntty.Daemon.Session.Streams.{IsServed, IsSound, stream}
use hauntty.Daemon.Session.Clients.{
  Begins-append, queue_one-IsServed, queue_one-IsSound, finish-IsSound,
}
use hauntty.Daemon.Session.State.{Chunk, output}
use hauntty.Daemon.Session.Delivery.{Core, Delivers, since, due}

module _ (v : Core) (d : Delivers v) where
  abbrev result : Pruned
  result = prune_finished_clients v.clients v.pending_clients v.heap

  abbrev dropped : Core
  dropped = record v { heap = result.heap; clients = result.kept; pending_clients = result.pending }

  kept_law :
      (r : ℕ) → contains r dropped.clients ≡ (contains r v.clients && not (v.heap r).write_done)
  kept_law r = kept-prune_finished_clients r v.clients v.pending_clients v.heap d.distinct

  heap_law :
      (r : ℕ) → dropped.heap r ≡ (if contains r v.clients then finish (v.heap r) else v.heap r)
  heap_law r = heap-prune_finished_clients r v.clients v.pending_clients v.heap d.distinct

  pending_law :
      (r : ℕ)
      → contains r dropped.pending_clients
        ≡ (contains r v.pending_clients && not (contains r v.clients && (v.heap r).write_done))
  pending_law r =
      pending-prune_finished_clients r v.clients v.pending_clients v.heap d.distinct d.waiting

  finish_alive : (c : Client) → c.write_done ≡ false → finish c ≡ c
  unfolding finish
  finish_alive c e = simp e

  dropped-IsServed :
      (r : ℕ)
      → contains r dropped.clients ≡ true
      → IsServed (dropped.heap r) (due dropped r) (since v r)
  dropped-IsServed r m =
      let alive : (v.heap r).write_done ≡ false = ground (arith, kept_law r) in
      let member : contains r v.clients ≡ true = ground (arith, kept_law r) in
      let waits : contains r dropped.pending_clients ≡ contains r v.pending_clients =
        ground (arith, pending_law r) in
      rw (heap_law r, member, finish_alive (v.heap r) alive, waits) (d.served r member)

  dropped-IsSound : (r : ℕ) → IsSound (dropped.heap r) (since v r)
  dropped-IsSound r = elim (Bool-cases (contains r v.clients)) [
    | inl m ↦
        rw (heap_law r, m)
          (finish-IsSound (v.heap r) (since v r) (d.served r m).is_open (d.sound r))
    | inr m ↦ rw (heap_law r, m) (d.sound r)
  ]

  pub prune-Delivers : Delivers dropped
  prune-Delivers = record {
    distinct = kept-Distinct v.clients v.pending_clients v.heap d.distinct;
    waiting = prune-Distinct v.clients v.pending_clients v.heap d.waiting;
    subset = λ r m. ground (arith, kept_law r, pending_law r, d.subset r);
    fresh = λ r m. d.fresh r (ground (arith, kept_law r));
    unowed = λ e r. ground (arith, pending_law r, d.unowed e r);
    bounded = d.bounded;
    served = dropped-IsServed;
    sound = dropped-IsSound;
  }

-- The pending output is offered again to the clients that wait for it.
module _ (v : Core) (d : Delivers v) (chunk : Chunk) (owed : v.pending_output ≡ some chunk) where
  abbrev requeued : Core
  requeued = record v {
    heap = (queue_output v.pending_clients (output chunk) v.heap).0;
    pending_clients = (queue_output v.pending_clients (output chunk) v.heap).1;
  }

  offer_law :
      (r : ℕ)
      → requeued.heap r
        ≡ (if contains r v.pending_clients then queue_one (output chunk) (v.heap r) else v.heap r)
  offer_law r = heap-queue_output r v.pending_clients (output chunk) v.heap d.waiting

  wait_law :
      (r : ℕ)
      → contains r requeued.pending_clients
        ≡ (contains r v.pending_clients && is_blocked (v.heap r))
  wait_law r = pending-queue_output r v.pending_clients (output chunk) v.heap d.waiting

  owed-IsServed :
      (r : ℕ) → contains r v.pending_clients ≡ true → IsServed (v.heap r) (chunk ∷ []) (since v r)
  owed-IsServed r w = rw (w, owed) at (d.served r (d.subset r w))

  requeued-IsServed :
      (r : ℕ)
      → contains r v.clients ≡ true
      → IsServed (requeued.heap r) (due requeued r) (since v r)
  requeued-IsServed r m = elim (Bool-cases (contains r v.pending_clients)) [
    | inl w ↦
        rw (offer_law r, wait_law r, w, owed)
          (queue_one-IsServed chunk (v.heap r) (since v r) (owed-IsServed r w))
    | inr w ↦ rw (offer_law r, wait_law r, w) (rw w at (d.served r m))
  ]

  requeued-IsSound : (r : ℕ) → IsSound (requeued.heap r) (since v r)
  requeued-IsSound r = elim (Bool-cases (contains r v.pending_clients)) [
    | inl w ↦
        rw (offer_law r, w)
          (queue_one-IsSound chunk (v.heap r) (since v r) (owed-IsServed r w) (d.sound r))
    | inr w ↦ rw (offer_law r, w) (d.sound r)
  ]

  pub requeue-Delivers : Delivers requeued
  requeue-Delivers = record {
    distinct = d.distinct;
    waiting = queue_output-Distinct v.pending_clients (output chunk) v.heap d.waiting;
    subset = λ r m. d.subset r (ground (arith, wait_law r));
    fresh = d.fresh;
    unowed = λ e r. cc (e, owed);
    bounded = d.bounded;
    served = requeued-IsServed;
    sound = requeued-IsSound;
  }

-- A chunk is offered to every client; before, nothing was pending.
module _ (v : Core) (d : Delivers v) (chunk : Chunk) (idle : v.pending_output ≡ none) where
  abbrev accepting : Core
  accepting = record v {
    heap = (queue_output v.clients (output chunk) v.heap).0;
    pending_clients = (queue_output v.clients (output chunk) v.heap).1;
    pending_output = some chunk;
    accepted = v.accepted ++ chunk ∷ [];
  }

  accept_law :
      (r : ℕ)
      → accepting.heap r
        ≡ (if contains r v.clients then queue_one (output chunk) (v.heap r) else v.heap r)
  accept_law r = heap-queue_output r v.clients (output chunk) v.heap d.distinct

  block_law :
      (r : ℕ)
      → contains r accepting.pending_clients ≡ (contains r v.clients && is_blocked (v.heap r))
  block_law r = pending-queue_output r v.clients (output chunk) v.heap d.distinct

  since_law : (r : ℕ) → since accepting r ≡ since v r ++ chunk ∷ []
  since_law r = drop-append_le (v.started r) v.accepted (chunk ∷ []) (d.bounded r)

  next-IsServed :
      (r : ℕ)
      → contains r v.clients ≡ true
      → IsServed (v.heap r) (chunk ∷ []) (since v r ++ chunk ∷ [])
  next-IsServed r m =
      let s : IsServed (v.heap r) [] (since v r) = rw (d.unowed idle r) at (d.served r m) in
      record {
        is_open = s.is_open;
        current = λ alive.
            ap (λ l. l ++ chunk ∷ []) (sym (append-nil (stream (v.heap r))) ∙ s.current alive);
      }

  later-IsSound : (r : ℕ) → IsSound (v.heap r) (since v r ++ chunk ∷ [])
  later-IsSound r =
      let s = d.sound r in
      record {
        no_fault = s.no_fault;
        written = Begins-append (chunk ∷ []) s.written;
        queued = λ alive. Begins-append (chunk ∷ []) (s.queued alive);
        final_quiet = s.final_quiet;
      }

  accepting-IsServed :
      (r : ℕ)
      → contains r v.clients ≡ true
      → IsServed (accepting.heap r) (due accepting r) (since accepting r)
  accepting-IsServed r m =
      rw (accept_law r, block_law r, m, since_law r)
        (queue_one-IsServed chunk (v.heap r) (since v r ++ chunk ∷ []) (next-IsServed r m))

  accepting-IsSound : (r : ℕ) → IsSound (accepting.heap r) (since accepting r)
  accepting-IsSound r = elim (Bool-cases (contains r v.clients)) [
    | inl m ↦
        rw (accept_law r, m, since_law r)
          (queue_one-IsSound chunk (v.heap r) (since v r ++ chunk ∷ []) (next-IsServed r m)
            (later-IsSound r))
    | inr m ↦ rw (accept_law r, m, since_law r) (later-IsSound r)
  ]

  pub accept-Delivers : Delivers accepting
  accept-Delivers = record {
    distinct = d.distinct;
    waiting = queue_output-Distinct v.clients (output chunk) v.heap d.distinct;
    subset = λ r m. ground (arith, block_law r);
    fresh = d.fresh;
    unowed = λ e r. cc;
    bounded = λ r. omega (arith, d.bounded r, length-append v.accepted (chunk ∷ []));
    served = accepting-IsServed;
    sound = accepting-IsSound;
  }
