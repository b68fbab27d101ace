-- ===== src/Daemon/Session/Feed.antt =====
-- What the terminal was fed, and that the loop keeps it in step with the pty.
pub mod Turns
use hauntty.Prelude.{
  ap, subst, ◌≡◌, refl, sym, ◌∙◌, Bool, true, false, ◌&&◌, List, [], ◌∷◌, ◌++◌, map, append-nil,
  append_assoc, Option, none, some, Option-cases, Text, arith, ◌==◌, if◌then◌else◌, Bool-cases, inl,
  inr, ltb, length, ℕ, ℤ,
}
use hauntty.Daemon.Resize.{TermSize, apply_resize_policy}
use hauntty.Daemon.Clients.{Client, contains, find_client, collect_client_sizes, close_out}
use hauntty.Daemon.Session.State.{
  Chunk, TermOp, feed, resize_to, Loop, Screen, ScreenDump, size, resize, resize_if_changed,
  arbitrate_sizes, arbitrate_resize, resize_for_pending, notify_all, pruned, prune_top, requeue,
  top, accept, flush, opt_list,
}
use hauntty.Daemon.Session.Delivery.Upkeep.{core-arbitrate_resize, core-before_dump}
use hauntty.Daemon.Session.Steps.{
  AttachSpec, Action, attach_req, detach_req, resize_req, kick_req, client_info_req, stop_req,
  Event, pty_output, pty_closed, feed_taken, feed_applied, client_ready, action, write, cut_off,
  new_client, count_client, add_client, before_dump, after_dump, attach, drop_client, detach, kick,
  resize_client, stop, exit, act, reads_pty, take_feed, turn, apply_feed, write_client, loop_turn,
  step, run,
}

-- The chunks among what was done to the terminal.
unfoldable pub fed : List TermOp → List Chunk
fed [] = []
fed (feed d ∷ ops) = d ∷ fed ops
fed (resize_to cols rows ∷ ops) = fed ops

pub fed-append : (xs ys : List TermOp) → fed (xs ++ ys) ≡ fed xs ++ fed ys
unfolding fed
fed-append [] ys = refl
fed-append (feed d ∷ xs) ys = rw (fed-append xs ys)
fed-append (resize_to cols rows ∷ xs) ys = fed-append xs ys

fed-map : (ds : List Chunk) → fed (map feed ds) ≡ ds
unfolding fed
fed-map [] = refl
fed-map (d ∷ ds) = rw (fed-map ds)

-- What was fed, what waits in `feedCh`, and what the loop holds back.
abbrev pub intake : Loop → List Chunk
intake s = fed s.term ++ (s.feed_ch ++ opt_list s.pending_feed)

intake-resize : (t : TermSize) (s : Loop) → intake (resize t s) ≡ intake s
unfolding resize fed
intake-resize t s = rw (fed-append s.term (resize_to t.cols t.rows ∷ []), append-nil (fed s.term))

intake-resize_if_changed :
    (o : Option TermSize) (s : Loop) → intake (resize_if_changed o s) ≡ intake s
unfolding resize_if_changed
intake-resize_if_changed none s = refl
intake-resize_if_changed (some t) s =
    elim (Bool-cases (t.cols == (size s).0 && t.rows == (size s).1)) [
      | inl e ↦ rw e
      | inr e ↦ rw e (intake-resize t s)
    ]

intake-arbitrate_sizes :
    (sizes : List TermSize) (s : Loop) → intake (arbitrate_sizes sizes s) ≡ intake s
unfolding arbitrate_sizes
intake-arbitrate_sizes [] s = refl
intake-arbitrate_sizes (c ∷ sizes) s =
    intake-resize_if_changed (apply_resize_policy s.resize_policy (c ∷ sizes)) s

pub intake-arbitrate_resize : (s : Loop) → intake (arbitrate_resize s) ≡ intake s
unfolding arbitrate_resize
intake-arbitrate_resize s = intake-arbitrate_sizes (collect_client_sizes s.clients s.heap) s

pub fed-flush : (s : Loop) → fed (flush s).term ≡ intake s
unfolding flush
fed-flush s = rw (
  fed-append s.term (map feed (s.feed_ch ++ opt_list s.pending_feed)),
  fed-map (s.feed_ch ++ opt_list s.pending_feed),
)

intake-flush : (s : Loop) → intake (flush s) ≡ intake s
unfolding flush
intake-flush s = append-nil (fed (flush s).term) ∙ fed-flush s

resized_for :
    (read_only : Bool) (t : TermSize) (s : Loop)
    → intake (if read_only then s else resize_for_pending t s) ≡ intake s
unfolding resize_for_pending
resized_for true t s = refl
resized_for false t s = intake-resize_if_changed _ s

-- When the dump is taken, the terminal has all that the loop accepted from the pty.
pub fed-before_dump : (spec : AttachSpec) (s : Loop) → fed (before_dump spec s).term ≡ intake s
unfolding before_dump
fed-before_dump spec s =
    fed-flush (if spec.read_only then s else resize_for_pending spec.size s)
    ∙ resized_for spec.read_only spec.size s

intake-before_dump : (spec : AttachSpec) (s : Loop) → intake (before_dump spec s) ≡ intake s
unfolding before_dump
intake-before_dump spec s =
    intake-flush (if spec.read_only then s else resize_for_pending spec.size s)
    ∙ resized_for spec.read_only spec.size s

announced :
    (read_only : Bool) (s : Loop)
    → intake (notify_all (if read_only then s else arbitrate_resize s)) ≡ intake s
unfolding notify_all
announced true s = refl
announced false s = intake-arbitrate_resize s

intake-after_dump :
    (spec : AttachSpec) (dump : ScreenDump) (s : Loop) → intake (after_dump spec dump s) ≡ intake s
unfolding after_dump count_client add_client
intake-after_dump spec dump s =
    announced spec.read_only (add_client (new_client spec dump (count_client s)) (count_client s))

pub intake-attach :
    (screen : Screen) (spec : AttachSpec) (s : Loop) → intake (attach screen spec s).0 ≡ intake s
unfolding attach
intake-attach screen spec s = elim (Option-cases (screen (before_dump spec s).term)) [
  | inl e ↦ rw (e, attach) (intake-before_dump spec s)
  | inr (dump, e) ↦
      rw (e, attach) (intake-after_dump spec dump (before_dump spec s) ∙ intake-before_dump spec s)
]

-- The terminal is in step with the pty: all that was accepted was fed or will be.
abbrev pub InStep : Loop → Type 0
InStep s = intake s ≡ s.accepted

pub accepted-arbitrate_resize : (s : Loop) → (arbitrate_resize s).accepted ≡ s.accepted
accepted-arbitrate_resize s = ap (λ v. v.accepted) (core-arbitrate_resize s)

accepted-announced :
    (read_only : Bool) (s : Loop)
    → (notify_all (if read_only then s else arbitrate_resize s)).accepted ≡ s.accepted
unfolding notify_all
accepted-announced true s = refl
accepted-announced false s = accepted-arbitrate_resize s

accepted-after_dump :
    (spec : AttachSpec) (dump : ScreenDump) (s : Loop)
    → (after_dump spec dump s).accepted ≡ s.accepted
unfolding after_dump count_client add_client
accepted-after_dump spec dump s =
    accepted-announced spec.read_only
      (add_client (new_client spec dump (count_client s)) (count_client s))

accepted-before_dump : (spec : AttachSpec) (s : Loop) → (before_dump spec s).accepted ≡ s.accepted
accepted-before_dump spec s = ap (λ v. v.accepted) (core-before_dump spec s)

pub accepted-attach :
    (screen : Screen) (spec : AttachSpec) (s : Loop)
    → (attach screen spec s).0.accepted ≡ s.accepted
unfolding attach
accepted-attach screen spec s = elim (Option-cases (screen (before_dump spec s).term)) [
  | inl e ↦ rw (e, attach) (accepted-before_dump spec s)
  | inr (dump, e) ↦
      rw (e, attach)
        (accepted-after_dump spec dump (before_dump spec s) ∙ accepted-before_dump spec s)
]
