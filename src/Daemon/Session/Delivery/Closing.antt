-- ===== src/Daemon/Session/Delivery/Closing.antt =====
-- When `run` returns, every client's channel is closed, and none was closed before.
use hauntty.Prelude.{
  ℕ, ◌≡◌, refl, false, List, [], ◌∷◌, some, arith, if◌then◌else◌, Bool-cases, inl, inr,
}
use hauntty.Protocol.Messages.{Message}
use hauntty.Daemon.Clients.{Client, Heap, update, contains}
use hauntty.Daemon.Clients.Laws.{Distinct}
use hauntty.Daemon.Session.Streams.{IsSound, IsQuiet, stream}
use hauntty.Daemon.Session.Clients.{close_out-IsSound}
use hauntty.Daemon.Session.State.{Chunk, for_each}
use hauntty.Daemon.Session.Steps.{cut_off, leave}
use hauntty.Daemon.Session.Delivery.{Core, Delivers, Settled, since}

pub heap-for_each :
    (f : Client → Client) (r : ℕ) (cs : List ℕ) (h : Heap)
    → Distinct cs
    → for_each f cs h r ≡ (if contains r cs then f (h r) else h r)
unfolding contains for_each
heap-for_each f r [] h d = refl
heap-for_each f r (c ∷ cs) h d = ground (arith, heap-for_each f r cs (update h c (f (h c))) d.1)

pub cut_off-IsSound :
    (c : Client) (since : List Chunk)
    → c.closed ≡ false
    → IsSound c since
    → IsSound (cut_off c) since
unfolding cut_off stream
cut_off-IsSound c since h s =
    let k = close_out-IsSound c since h s in
    record {
      no_fault = k.no_fault;
      written = k.written;
      queued = k.queued;
      final_quiet = k.final_quiet;
    }

pub leave-IsSound :
    (msg : Message) (c : Client) (since : List Chunk)
    → IsQuiet msg
    → c.closed ≡ false
    → IsSound c since
    → IsSound (leave msg c) since
unfolding leave stream
leave-IsSound msg c since quiet h s =
    close_out-IsSound (record c { final = some msg }) since h
      (record {
        no_fault = s.no_fault;
        written = s.written;
        queued = s.queued;
        final_quiet = quiet;
      })

module _ (v : Core) (d : Delivers v) (f : Client → Client)
    (keep : (c : Client) (s : List Chunk) → c.closed ≡ false → IsSound c s → IsSound (f c) s) where
  abbrev all_closed : Core
  all_closed = record v { heap = for_each f v.clients v.heap }

  closing-IsSound : (r : ℕ) → IsSound (all_closed.heap r) (since v r)
  closing-IsSound r = elim (Bool-cases (contains r v.clients)) [
    | inl m ↦
        rw (heap-for_each f r v.clients v.heap d.distinct, m)
          (keep (v.heap r) (since v r) (d.served r m).is_open (d.sound r))
    | inr m ↦ rw (heap-for_each f r v.clients v.heap d.distinct, m) (d.sound r)
  ]

  pub for_each-Settled : Settled all_closed
  for_each-Settled = record { sound = closing-IsSound }
