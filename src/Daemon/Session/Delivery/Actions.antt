-- ===== src/Daemon/Session/Delivery/Actions.antt =====
-- The actions on clients keep the invariant of delivery.
use hauntty.Prelude.{
  ℕ, ◌≡◌, refl, Bool, true, false, List, [], ◌∷◌, some, Option-cases, Text, arith, if◌then◌else◌,
  Bool-cases, inl, inr,
}
use hauntty.Daemon.Resize.{TermSize}
use hauntty.Daemon.Clients.{Client, Heap, contains, close_out, find_client}
use hauntty.Daemon.Session.Streams.{outputs, IsServed, IsSound, stream}
use hauntty.Daemon.Session.Clients.{close_out-IsSound}
use hauntty.Daemon.Session.State.{
  Chunk, Loop, Screen, ScreenDump, size, arbitrate_resize, notify_all,
}
use hauntty.Daemon.Session.Steps.{
  AttachSpec, cut_off, new_client, count_client, add_client, before_dump, after_dump, attach,
  drop_client, detach, kick, resize_client,
}
use hauntty.Daemon.Session.Delivery.{core, Delivers, since, clear-Delivers}
use hauntty.Daemon.Session.Delivery.Roster.{add-Delivers, remove-Delivers, change-Delivers}
use hauntty.Daemon.Session.Delivery.Closing.{cut_off-IsSound}
use hauntty.Daemon.Session.Delivery.Upkeep.{
  core-before_dump, notify_all-Delivers, arbitrate-Delivers,
}

announce-Delivers :
    (read_only : Bool) (s : Loop)
    → Delivers (core s)
    → Delivers (core (notify_all (if read_only then s else arbitrate_resize s)))
announce-Delivers true s d = notify_all-Delivers s d
announce-Delivers false s d = notify_all-Delivers _ (arbitrate-Delivers s d)

after_dump-Delivers :
    (spec : AttachSpec) (dump : ScreenDump) (s : Loop)
    → Delivers (core s)
    → Delivers (core (after_dump spec dump s))
unfolding after_dump count_client add_client new_client stream outputs
after_dump-Delivers spec dump s d =
    announce-Delivers spec.read_only
      (add_client (new_client spec dump (count_client s)) (count_client s))
      (add-Delivers (core s) d (new_client spec dump (count_client s)) refl refl refl refl tt)

pub attach-Delivers :
    (screen : Screen) (spec : AttachSpec) (s : Loop)
    → Delivers (core s)
    → Delivers (core (attach screen spec s).0)
unfolding attach
attach-Delivers screen spec s d =
    let ready : Delivers (core (before_dump spec s)) = rw (core-before_dump spec s) d in
    elim (Option-cases (screen (before_dump spec s).term)) [
      | inl e ↦ rw (e, attach) ready
      | inr (dump, e) ↦ rw (e, attach) (after_dump-Delivers spec dump (before_dump spec s) ready)
    ]

drop_client-Delivers :
    (change : Client → Client) (r : ℕ) (s : Loop)
    → ((c : Client) (l : List Chunk) → c.closed ≡ false → IsSound c l → IsSound (change c) l)
    → contains r s.clients ≡ true
    → Delivers (core s)
    → Delivers (core (drop_client change r s))
unfolding drop_client
drop_client-Delivers change r s keep m d =
    let sound = keep (s.heap r) (since (core s) r) (d.served r m).is_open (d.sound r) in
    notify_all-Delivers _
      (arbitrate-Delivers _ (clear-Delivers _ (remove-Delivers (core s) d r change sound)))

pub detach-Delivers : (r : ℕ) (s : Loop) → Delivers (core s) → Delivers (core (detach r s))
unfolding detach
detach-Delivers r s d = elim (Bool-cases (contains r s.clients)) [
  | inl m ↦ rw m (drop_client-Delivers close_out r s close_out-IsSound m d)
  | inr m ↦ rw m d
]

find_client-contains :
    (cs : List ℕ) (id : Text) (h : Heap) (r : ℕ)
    → find_client cs id h ≡ some r
    → contains r cs ≡ true
unfolding find_client contains
find_client-contains [] id h r e = cc
find_client-contains (c ∷ cs) id h r e = ground (arith, find_client-contains cs id h r)

pub kick-Delivers : (id : Text) (s : Loop) → Delivers (core s) → Delivers (core (kick id s).0)
unfolding kick
kick-Delivers id s d = elim (Option-cases (find_client s.clients id s.heap)) [
  | inl e ↦ rw (e, kick) d
  | inr (r, e) ↦
      rw (e, kick)
        (drop_client-Delivers cut_off r s cut_off-IsSound
          (find_client-contains s.clients id s.heap r e) d)
]

sized-IsServed :
    (c : Client) (size : TermSize) (w l : List Chunk)
    → IsServed c w l
    → IsServed (record c { size = size }) w l
unfolding stream
sized-IsServed c size w l v = record { is_open = v.is_open; current = v.current }

sized-IsSound :
    (c : Client) (size : TermSize) (l : List Chunk)
    → IsSound c l
    → IsSound (record c { size = size }) l
unfolding stream
sized-IsSound c size l s = record {
  no_fault = s.no_fault;
  written = s.written;
  queued = s.queued;
  final_quiet = s.final_quiet;
}

pub resize_client-Delivers :
    (r : ℕ) (size : TermSize) (s : Loop)
    → Delivers (core s)
    → Delivers (core (resize_client r size s))
unfolding resize_client
resize_client-Delivers r size s d = arbitrate-Delivers _ (
    change-Delivers (core s) r (record (s.heap r) { size = size }) (sized-IsServed (s.heap r) size)
      (sized-IsSound (s.heap r) size) d)
