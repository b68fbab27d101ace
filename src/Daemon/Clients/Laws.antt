-- ===== src/Daemon/Clients/Laws.antt =====
-- The loops over clients, seen at one client.
use hauntty.Prelude.{
  ℕ, ◌≡◌, refl, false, not, ◌&&◌, List, [], ◌∷◌, arith, ◌==◌, if◌then◌else◌, Bool-cases, inl, inr,
}
use hauntty.Protocol.Messages.{Message}
use hauntty.Daemon.Clients.{
  Heap, update, queue_one, is_blocked, finish, notify_one, contains, remove_client, queue_output,
  prune_finished_clients, notify,
}

-- No client stands twice in the list.
abbrev pub Distinct : List ℕ → Type 0
Distinct [] = Unit {0}
Distinct (c ∷ cs) = (contains c cs ≡ false) × Distinct cs

pub contains-remove_client :
    (r t : ℕ) (cs : List ℕ)
    → Distinct cs
    → contains r (remove_client cs t) ≡ (if r == t then false else contains r cs)
unfolding contains remove_client
contains-remove_client r t [] d = ground arith
contains-remove_client r t (c ∷ cs) d = ground (arith, contains-remove_client r t cs d.1)

pub remove_client-Distinct : (t : ℕ) (cs : List ℕ) → Distinct cs → Distinct (remove_client cs t)
unfolding contains remove_client
remove_client-Distinct t [] d = tt
remove_client-Distinct t (c ∷ cs) d =
    ground (arith, remove_client-Distinct t cs d.1, contains-remove_client c t cs d.1)

-- The message is offered to each client of the list.
pub heap-queue_output :
    (r : ℕ) (cs : List ℕ) (msg : Message) (h : Heap)
    → Distinct cs
    → (queue_output cs msg h).0 r ≡ (if contains r cs then queue_one msg (h r) else h r)
unfolding contains queue_output
heap-queue_output r [] msg h d = refl
heap-queue_output r (c ∷ cs) msg h d =
    ground (arith, heap-queue_output r cs msg (update h c (queue_one msg (h c))) d.1)

-- It is pending at those whose writer runs and whose channel is full.
pub pending-queue_output :
    (r : ℕ) (cs : List ℕ) (msg : Message) (h : Heap)
    → Distinct cs
    → contains r (queue_output cs msg h).1 ≡ (contains r cs && is_blocked (h r))
unfolding contains queue_output
pending-queue_output r [] msg h d = refl
pending-queue_output r (c ∷ cs) msg h d =
    ground (arith, pending-queue_output r cs msg (update h c (queue_one msg (h c))) d.1)

pub queue_output-Distinct :
    (cs : List ℕ) (msg : Message) (h : Heap) → Distinct cs → Distinct (queue_output cs msg h).1
unfolding contains queue_output
queue_output-Distinct [] msg h d = tt
queue_output-Distinct (c ∷ cs) msg h d = ground (
  arith,
  queue_output-Distinct cs msg (update h c (queue_one msg (h c))) d.1,
  pending-queue_output c cs msg (update h c (queue_one msg (h c))) d.1,
)

pub heap-notify :
    (r : ℕ) (cs : List ℕ) (msg : Message) (h : Heap)
    → Distinct cs
    → notify cs msg h r ≡ (if contains r cs then notify_one msg (h r) else h r)
unfolding contains notify
heap-notify r [] msg h d = refl
heap-notify r (c ∷ cs) msg h d =
    ground (arith, heap-notify r cs msg (update h c (notify_one msg (h c))) d.1)

-- Pruning closes the channels of the clients whose writer has ended, and drops these clients.
pub heap-prune_finished_clients :
    (r : ℕ) (cs pending : List ℕ) (h : Heap)
    → Distinct cs
    → (prune_finished_clients cs pending h).heap r ≡ (if contains r cs then finish (h r) else h r)
unfolding contains prune_finished_clients
heap-prune_finished_clients r [] pending h d = refl
heap-prune_finished_clients r (c ∷ cs) pending h d = ground (
  arith,
  heap-prune_finished_clients r cs (if (h c).write_done then remove_client pending c else pending)
      (update h c (finish (h c))) d.1,
)

pub kept-prune_finished_clients :
    (r : ℕ) (cs pending : List ℕ) (h : Heap)
    → Distinct cs
    → contains r (prune_finished_clients cs pending h).kept
      ≡ (contains r cs && not (h r).write_done)
unfolding contains prune_finished_clients
kept-prune_finished_clients r [] pending h d = refl
kept-prune_finished_clients r (c ∷ cs) pending h d = ground (
  arith,
  kept-prune_finished_clients r cs (if (h c).write_done then remove_client pending c else pending)
      (update h c (finish (h c))) d.1,
)

pub kept-Distinct :
    (cs pending : List ℕ) (h : Heap)
    → Distinct cs
    → Distinct (prune_finished_clients cs pending h).kept
unfolding contains prune_finished_clients
kept-Distinct [] pending h d = tt
kept-Distinct (c ∷ cs) pending h d =
    let pending' = if (h c).write_done then remove_client pending c else pending in
    let h' = update h c (finish (h c)) in
    ground
      (arith, kept-Distinct cs pending' h' d.1, kept-prune_finished_clients c cs pending' h' d.1)

pub pending-prune_finished_clients :
    (r : ℕ) (cs pending : List ℕ) (h : Heap)
    → Distinct cs
    → Distinct pending
    → contains r (prune_finished_clients cs pending h).pending
      ≡ (contains r pending && not (contains r cs && (h r).write_done))
unfolding contains prune_finished_clients
pending-prune_finished_clients r [] pending h d p = ground arith
pending-prune_finished_clients r (c ∷ cs) pending h d p = elim (Bool-cases (h c).write_done) [
  | inl e ↦ ground (
    arith,
    contains-remove_client r c pending p,
    pending-prune_finished_clients r cs (remove_client pending c) (update h c (finish (h c))) d.1
        (remove_client-Distinct c pending p),
  )
  | inr e ↦
      ground (arith, pending-prune_finished_clients r cs pending (update h c (finish (h c))) d.1 p)
]

pub prune-Distinct :
    (cs pending : List ℕ) (h : Heap)
    → Distinct pending
    → Distinct (prune_finished_clients cs pending h).pending
unfolding prune_finished_clients
prune-Distinct [] pending h p = p
prune-Distinct (c ∷ cs) pending h p = ground (
  arith,
  remove_client-Distinct c pending p,
  prune-Distinct cs (remove_client pending c) (update h c (finish (h c))),
  prune-Distinct cs pending (update h c (finish (h c))),
)
