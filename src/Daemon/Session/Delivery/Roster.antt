-- ===== src/Daemon/Session/Delivery/Roster.antt =====
-- Adding and dropping a client, closing all, and the writers' turns keep the invariant of delivery.
use hauntty.Prelude.{
  ℕ, suc, ◌≡◌, refl, true, false, ◌||◌, List, [], ◌∷◌, ◌++◌, arith, ◌==◌, if◌then◌else◌, length,
  drop-length, Bool-cases, inl, inr,
}
use hauntty.Daemon.Clients.{Client, update, contains, remove_client}
use hauntty.Daemon.Clients.Laws.{Distinct, contains-remove_client, remove_client-Distinct}
use hauntty.Daemon.Session.Streams.{outputs, IsServed, IsSound, stream, QuietFinal}
use hauntty.Daemon.Session.State.{Chunk}
use hauntty.Daemon.Session.Delivery.{Core, Delivers, since, due}

pub contains-append :
    (r c : ℕ) (cs : List ℕ) → contains r (cs ++ c ∷ []) ≡ (contains r cs || (r == c))
unfolding contains
contains-append r c [] = ground arith
contains-append r c (x ∷ cs) = ground (arith, contains-append r c cs)

pub append-Distinct :
    (c : ℕ) (cs : List ℕ) → Distinct cs → contains c cs ≡ false → Distinct (cs ++ c ∷ [])
unfolding contains
append-Distinct c [] d m = (refl, tt)
append-Distinct c (x ∷ cs) d m = ground (arith, contains-append x c cs, append-Distinct c cs d.1)

-- A new client that has seen nothing joins at the end.
module _ (v : Core) (d : Delivers v) (c : Client) (is_open : c.closed ≡ false)
    (no_fault : c.fault ≡ false) (unseen : stream c ≡ []) (unsent : c.sent ≡ [])
    (quiet : QuietFinal c.final) where
  abbrev added : Core
  added = record v {
    heap = update v.heap v.next_ref c;
    next_ref = suc v.next_ref;
    clients = v.clients ++ v.next_ref ∷ [];
    started = λ r. if r == v.next_ref then length v.accepted else v.started r;
  }

  pub absent : contains v.next_ref v.clients ≡ false
  absent = elim (Bool-cases (contains v.next_ref v.clients)) [
    | inl m ↦ absurd (omega (arith, d.fresh v.next_ref m))
    | inr m ↦ m
  ]

  idle : contains v.next_ref v.pending_clients ≡ false
  idle = elim (Bool-cases (contains v.next_ref v.pending_clients)) [
    | inl m ↦ cc (absent, d.subset v.next_ref m)
    | inr m ↦ m
  ]

  new-IsServed : IsServed c [] []
  new-IsServed = record { is_open = is_open; current = λ _. rw unseen }

  new-IsSound : IsSound c []
  unfolding outputs
  new-IsSound = record {
    no_fault = no_fault;
    written = rw unsent (record { rest = []; joined = refl });
    queued = λ _. rw unseen (record { rest = []; joined = refl });
    final_quiet = quiet;
  }

  added-IsServed :
      (r : ℕ)
      → contains r added.clients ≡ true
      → IsServed (added.heap r) (due added r) (since added r)
  added-IsServed r m = elim (Bool-cases (r == v.next_ref)) [
    | inl e ↦
        let same : r ≡ v.next_ref = ground arith in
        let waits : contains r v.pending_clients ≡ false = rw same idle in
        rw (e, waits, drop-length v.accepted) new-IsServed
    | inr e ↦ rw e (d.served r (ground (arith, contains-append r v.next_ref v.clients)))
  ]

  added-IsSound : (r : ℕ) → IsSound (added.heap r) (since added r)
  added-IsSound r = elim (Bool-cases (r == v.next_ref)) [
    | inl e ↦ rw (e, drop-length v.accepted) new-IsSound
    | inr e ↦ rw e (d.sound r)
  ]

  pub add-Delivers : Delivers added
  add-Delivers = record {
    distinct = append-Distinct v.next_ref v.clients d.distinct absent;
    waiting = d.waiting;
    subset = λ r m. ground (arith, contains-append r v.next_ref v.clients, d.subset r m);
    fresh = λ r m. ground (arith, contains-append r v.next_ref v.clients, d.fresh r);
    unowed = d.unowed;
    bounded = λ r. ground (arith, d.bounded r);
    served = added-IsServed;
    sound = added-IsSound;
  }

-- One client leaves, by a change of its object that leaves it sound.
module _ (v : Core) (d : Delivers v) (r : ℕ) (change : Client → Client)
    (sound : IsSound (change (v.heap r)) (since v r)) where
  abbrev removed : Core
  removed = record v {
    heap = update v.heap r (change (v.heap r));
    clients = remove_client v.clients r;
    pending_clients = remove_client v.pending_clients r;
  }

  stays : (x : ℕ) → contains x removed.clients ≡ (if x == r then false else contains x v.clients)
  stays x = contains-remove_client x r v.clients d.distinct

  waits :
      (x : ℕ)
      → contains x removed.pending_clients
        ≡ (if x == r then false else contains x v.pending_clients)
  waits x = contains-remove_client x r v.pending_clients d.waiting

  removed-IsServed :
      (x : ℕ)
      → contains x removed.clients ≡ true
      → IsServed (removed.heap x) (due removed x) (since v x)
  removed-IsServed x m =
      let other : (x == r) ≡ false = ground (arith, stays x) in
      rw (waits x, other) (d.served x (ground (arith, stays x)))

  removed-IsSound : (x : ℕ) → IsSound (removed.heap x) (since v x)
  removed-IsSound x = elim (Bool-cases (x == r)) [
    | inl e ↦ let same : x ≡ r = ground arith in rw (e, same) sound
    | inr e ↦ rw e (d.sound x)
  ]

  pub remove-Delivers : Delivers removed
  remove-Delivers = record {
    distinct = remove_client-Distinct r v.clients d.distinct;
    waiting = remove_client-Distinct r v.pending_clients d.waiting;
    subset = λ x m. ground (arith, stays x, waits x, d.subset x);
    fresh = λ x m. ground (arith, stays x, d.fresh x);
    unowed = λ e x. ground (arith, waits x, d.unowed e x);
    bounded = d.bounded;
    served = removed-IsServed;
    sound = removed-IsSound;
  }

-- One object changes in a way that keeps it served and sound.
module _ (v : Core) (r : ℕ) (c : Client)
    (served : (w s : List Chunk) → IsServed (v.heap r) w s → IsServed c w s)
    (sound : (s : List Chunk) → IsSound (v.heap r) s → IsSound c s) where
  abbrev changed : Core
  changed = record v { heap = update v.heap r c }

  pub change-IsSound :
      ((x : ℕ) → IsSound (v.heap x) (since v x)) → (x : ℕ) → IsSound (changed.heap x) (since v x)
  change-IsSound s x = elim (Bool-cases (x == r)) [
    | inl e ↦ let same : x ≡ r = ground arith in rw (e, same) (sound (since v r) (s r))
    | inr e ↦ rw e (s x)
  ]

  change-IsServed :
      Delivers v
      → (x : ℕ) → contains x v.clients ≡ true
      → IsServed (changed.heap x) (due v x) (since v x)
  change-IsServed d x m = elim (Bool-cases (x == r)) [
    | inl e ↦
        let same : x ≡ r = ground arith in
        rw (e, same) (served (due v r) (since v r) (d.served r (rw (← same) m)))
    | inr e ↦ rw e (d.served x m)
  ]

  pub change-Delivers : Delivers v → Delivers changed
  change-Delivers d = record {
    distinct = d.distinct;
    waiting = d.waiting;
    subset = d.subset;
    fresh = d.fresh;
    unowed = d.unowed;
    bounded = d.bounded;
    served = change-IsServed d;
    sound = change-IsSound d.sound;
  }
