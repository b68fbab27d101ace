-- ===== src/Daemon/Session/Delivery/Upkeep.antt =====
-- The resizing and what each turn begins with keep the invariant of delivery.
use hauntty.Prelude.{◌≡◌, refl, ◌&&◌, List, [], ◌∷◌, Option, none, some, ◌==◌, Bool-cases, inl, inr}
use hauntty.Daemon.Resize.{TermSize, apply_resize_policy}
use hauntty.Daemon.Clients.{notify_clients_changed, collect_client_sizes}
use hauntty.Daemon.Session.State.{
  Chunk, Loop, size, resize, resize_if_changed, arbitrate_sizes, arbitrate_resize,
  resize_for_pending, notify_all, pruned, prune_top, requeue, top, flush,
}
use hauntty.Daemon.Session.Steps.{AttachSpec, before_dump}
use hauntty.Daemon.Session.Delivery.{core, Delivers, notify-Delivers, clear-Delivers}
use hauntty.Daemon.Session.Delivery.Queue.{prune-Delivers, requeue-Delivers}

-- Resizing concerns no client.
core-resize_if_changed : (o : Option TermSize) (s : Loop) → core (resize_if_changed o s) ≡ core s
unfolding resize_if_changed resize
core-resize_if_changed none s = refl
core-resize_if_changed (some t) s =
    elim (Bool-cases (t.cols == (size s).0 && t.rows == (size s).1)) [ inl e ↦ rw e | inr e ↦ rw e ]

core-arbitrate_sizes : (sizes : List TermSize) (s : Loop) → core (arbitrate_sizes sizes s) ≡ core s
unfolding arbitrate_sizes
core-arbitrate_sizes [] s = refl
core-arbitrate_sizes (c ∷ sizes) s =
    core-resize_if_changed (apply_resize_policy s.resize_policy (c ∷ sizes)) s

pub core-arbitrate_resize : (s : Loop) → core (arbitrate_resize s) ≡ core s
unfolding arbitrate_resize
core-arbitrate_resize s = core-arbitrate_sizes (collect_client_sizes s.clients s.heap) s

pub core-before_dump : (spec : AttachSpec) (s : Loop) → core (before_dump spec s) ≡ core s
unfolding before_dump flush resize_for_pending
core-before_dump spec s = elim (Bool-cases spec.read_only) [
  | inl e ↦ rw e
  | inr e ↦ rw e (core-resize_if_changed _ s)
]

pub notify_all-Delivers : (s : Loop) → Delivers (core s) → Delivers (core (notify_all s))
unfolding notify_all notify_clients_changed
notify_all-Delivers s d = notify-Delivers _ refl (core s) d

pub arbitrate-Delivers : (s : Loop) → Delivers (core s) → Delivers (core (arbitrate_resize s))
arbitrate-Delivers s d = rw (core-arbitrate_resize s) d

pub prune_top-Delivers : (s : Loop) → Delivers (core s) → Delivers (core (prune_top s))
unfolding prune_top
prune_top-Delivers s d =
    let p = prune-Delivers (core s) d in
    elim (Bool-cases (pruned s).changed) [
      | inl e ↦ rw e (clear-Delivers _ (notify_all-Delivers _ p))
      | inr e ↦ rw e (clear-Delivers _ p)
    ]

requeue-some :
    (s : Loop) (o : Option Chunk)
    → s.pending_output ≡ o
    → Delivers (core s)
    → Delivers (core (requeue s))
unfolding requeue
requeue-some s none e d = rw (e, requeue) d
requeue-some s (some chunk) e d =
    rw (e, requeue) (clear-Delivers _ (requeue-Delivers (core s) d chunk e))

pub top-Delivers : (s : Loop) → Delivers (core s) → Delivers (core (top s))
unfolding top
top-Delivers s d =
    requeue-some (prune_top s) (prune_top s).pending_output refl (prune_top-Delivers s d)
