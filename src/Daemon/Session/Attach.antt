-- ===== src/Daemon/Session/Attach.antt =====
-- What a new client gets first, and that no output falls between its dump and its stream.
use hauntty.Prelude.{
  ◌%◌, ◌^◌, ℕ, ◌≡◌, refl, sym, ap, ◌∙◌, subst, Bool, true, false, [], ◌∷◌, ◌++◌, some,
  if◌then◌else◌, ◌==◌, length, arith,
}
use hauntty.Protocol.Messages.{Message, Attached}
use hauntty.Daemon.Clients.{Client, contains, notify_one, push, notify_clients_changed}
use hauntty.Daemon.Clients.Laws.{Distinct, heap-notify}
use hauntty.Daemon.Session.Decimal.{decimal}
use hauntty.Daemon.Session.State.{Loop, Screen, ScreenDump, size, arbitrate_resize, notify_all}
use hauntty.Daemon.Session.Streams.{IsQuiet, stream, outputs}
use hauntty.Daemon.Session.Steps.{
  AttachSpec, attached_client, new_client, count_client, add_client, before_dump, after_dump,
  attach,
}
use hauntty.Daemon.Session.Delivery.{core, Delivers}
use hauntty.Daemon.Session.Delivery.Upkeep.{core-arbitrate_resize, core-before_dump}
use hauntty.Daemon.Session.Delivery.Roster.{add-Delivers, contains-append}
use hauntty.Daemon.Session.Feed.{fed, fed-before_dump, accepted-attach, InStep}

abbrev notice_of : Loop → Message
notice_of s =
    Message.clients_changed
      (record { count = length s.clients % 2 ^ 16; cols = (size s).0; rows = (size s).1 })

-- One client's object behind a notice to all.
module _ (r : ℕ) where
  heap-notify_all :
      (s : Loop)
      → Distinct s.clients
      → contains r s.clients ≡ true
      → (notice : Message) × IsQuiet notice × ((notify_all s).heap r ≡ notify_one notice (s.heap r))
  unfolding notify_all notify_clients_changed
  heap-notify_all s d m =
      (notice_of s, refl, rw (heap-notify r s.clients (notice_of s) s.heap d, m))

  heap-announced :
      (read_only : Bool) (s : Loop)
      → Distinct s.clients
      → contains r s.clients ≡ true
      → (notice : Message) × IsQuiet notice
        × ((notify_all (if read_only then s else arbitrate_resize s)).heap r
            ≡ notify_one notice (s.heap r))
  heap-announced true s d m = heap-notify_all s d m
  heap-announced false s d m =
      let e = core-arbitrate_resize s in
      let told =
        heap-notify_all (arbitrate_resize s) (subst Distinct (ap (λ v. v.clients) (sym e)) d)
          (ap (λ v. contains r v.clients) e ∙ m) in
      (told.0, told.1, told.2 ∙ ap (λ v. notify_one told.0 (v.heap r)) e)

module _ (spec : AttachSpec) (dump : ScreenDump) (s : Loop) (d : Delivers (core s)) where
  abbrev fresh_client : Client
  fresh_client = new_client spec dump (count_client s)

  abbrev joined : Loop
  joined = add_client fresh_client (count_client s)

  joined-Delivers : Delivers (core joined)
  unfolding add_client count_client new_client stream outputs
  joined-Delivers = add-Delivers (core s) d fresh_client refl refl refl refl tt

  joined-contains : contains s.next_ref joined.clients ≡ true
  unfolding add_client count_client
  joined-contains = ground (arith, contains-append s.next_ref s.next_ref s.clients)

  heap-after_dump :
      (notice : Message) × IsQuiet notice
      × ((after_dump spec dump s).heap s.next_ref ≡ notify_one notice (joined.heap s.next_ref))
  unfolding after_dump
  heap-after_dump =
      heap-announced s.next_ref spec.read_only joined joined-Delivers.distinct joined-contains

  heap-joined : joined.heap s.next_ref ≡ fresh_client
  unfolding add_client count_client
  heap-joined = let same : (s.next_ref == s.next_ref) ≡ true = ground arith in rw same

  told :
      (notice : Message)
      → notify_one notice fresh_client
        ≡ record fresh_client { out_ch = fresh_client.out_ch ++ notice ∷ [] }
  unfolding notify_one push new_client
  told notice = refl

  started-announced :
      (read_only : Bool) (v : Loop)
      → (notify_all (if read_only then v else arbitrate_resize v)).started ≡ v.started
  unfolding notify_all
  started-announced true v = refl
  started-announced false v = ap (λ v. v.started) (core-arbitrate_resize v)

  started-after_dump : (after_dump spec dump s).started s.next_ref ≡ length s.accepted
  unfolding after_dump add_client count_client
  started-after_dump =
      let same : (s.next_ref == s.next_ref) ≡ true = ground arith in
      ap (λ f. f s.next_ref) (started-announced spec.read_only joined) ∙ rw same

  out_ch-after_dump :
      (notice : Message) × IsQuiet notice
      × (((after_dump spec dump s).heap s.next_ref).out_ch ≡ fresh_client.out_ch ++ notice ∷ [])
  out_ch-after_dump =
      let h = heap-after_dump in
      (h.0, h.1, ap (λ c. c.out_ch) (h.2 ∙ (ap (notify_one h.0) heap-joined ∙ told h.0)))

-- What a client gets when it attaches.
pub record Welcomed (screen : Screen) (spec : AttachSpec) (dump : ScreenDump) (s : Loop)
    : Type 0 where
  pub answered : (attach screen spec s).1 ≡ attached_client s.next_ref
  pub dumped : fed (before_dump spec s).term ≡ (attach screen spec s).0.accepted
  pub begun : (attach screen spec s).0.started s.next_ref ≡ length (attach screen spec s).0.accepted
  pub hello : Attached
  pub shows : hello.screen_dump ≡ dump.bytes
  pub notice : Message
  pub quiet : IsQuiet notice
  pub queued :
      ((attach screen spec s).0.heap s.next_ref).out_ch ≡ Message.attached hello ∷ notice ∷ []

abbrev hello_of : AttachSpec → ScreenDump → Loop → Attached
hello_of spec dump s = record {
  name = s.name;
  pid = s.pid;
  client_id = decimal s.next_client_id;
  cols = (size s).0;
  rows = (size s).1;
  screen_dump = dump.bytes;
  cursor_row = dump.cursor_row;
  cursor_col = dump.cursor_col;
  alt_screen = dump.is_alt_screen;
  created = spec.created;
}

attach-opened :
    (screen : Screen) (spec : AttachSpec) (dump : ScreenDump) (s : Loop)
    → screen (before_dump spec s).term ≡ some dump
    → attach screen spec s
      ≡ (after_dump spec dump (before_dump spec s), attached_client (before_dump spec s).next_ref)
unfolding attach
attach-opened screen spec dump s e = rw (e, attach)

-- In a state that keeps the loop's invariants, an attach whose dump succeeds takes the dump when the
-- terminal was fed exactly the output that the loop accepted; the new client's stream starts behind
-- that output; and its channel holds `Attached` with the dump first, then the notice to all clients.
pub attach-Welcomed :
    (screen : Screen) (spec : AttachSpec) (dump : ScreenDump) (s : Loop)
    → Delivers (core s)
    → InStep s
    → screen (before_dump spec s).term ≡ some dump
    → Welcomed screen spec dump s
unfolding new_client
attach-Welcomed screen spec dump s d h e =
    let ready = before_dump spec s in
    let unmoved : core ready ≡ core s = core-before_dump spec s in
    let numbered : ready.next_ref ≡ s.next_ref = ap (λ v. v.next_ref) unmoved in
    let d' = subst Delivers (sym unmoved) d in
    let out = out_ch-after_dump spec dump ready d' in
    let opened = attach-opened screen spec dump s e in
    let now : (attach screen spec s).0 ≡ after_dump spec dump ready = ap (λ p. p.0) opened in
    record {
      answered = ap (λ p. p.1) opened ∙ ap attached_client numbered;
      dumped = fed-before_dump spec s ∙ (h ∙ sym (accepted-attach screen spec s));
      begun =
          ap (λ v. v.started s.next_ref) now
          ∙ (ap (after_dump spec dump ready).started (sym numbered)
              ∙ (started-after_dump spec dump ready d'
                  ∙ (ap (λ v. length v.accepted) unmoved
                      ∙ ap length (sym (accepted-attach screen spec s)))));
      hello = hello_of spec dump (count_client ready);
      shows = refl;
      notice = out.0;
      quiet = out.1;
      queued =
          ap (λ v. (v.heap s.next_ref).out_ch) now
          ∙ (ap (λ r. ((after_dump spec dump ready).heap r).out_ch) (sym numbered) ∙ out.2);
    }
