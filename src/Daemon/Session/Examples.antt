-- ===== src/Daemon/Session/Examples.antt =====
-- A session with two clients at 80x24 and 100x30 under the policy "smallest", and what it does.
use mathlib.Core.Path.{Path}
use hauntty.Prelude.{
  ℕ, suc, ◌≡◌, refl, true, false, List, [], ◌∷◌, ◌++◌, some, codes, length, drop, pos,
  if◌then◌else◌, arith, text_eq,
}
use hauntty.Daemon.Resize.{
  TermSize, resize_policy_smallest, apply_resize_policy, smallest, pack_size, unpack_size,
}
use hauntty.Daemon.Clients.{
  prune_finished_clients, finish, queue_output, queue_one, push, notify, notify_one,
  notify_clients_changed, collect_client_sizes, write_step, write_turn, contains,
}
use hauntty.Daemon.Session.State.{
  top, requeue, accept, flush, notify_all, arbitrate_resize, arbitrate_sizes, resize_if_changed,
  resize_for_pending, resize, Loop, Screen, ScreenDump, TermOp, feed, resize_to, opt_list, size,
  prune_top,
}
use hauntty.Daemon.Session.Streams.{outputs, stream, Begins}
use hauntty.Daemon.Session.Steps.{
  resize_client, step, loop_turn, turn, act, attach, after_dump, count_client, add_client,
  new_client, take_feed, write_client, reads_pty, AttachSpec, Event, pty_output, feed_taken, action,
  write, attach_req, before_dump, run, detach, exit,
}
use hauntty.Daemon.Session.Delivery.{core, Delivers}
use hauntty.Daemon.Session.Start.{start_session}
use hauntty.Daemon.Session.Feed.{intake, fed}
use hauntty.Daemon.Session.Guarantees.{
  reached-Inv, run-no_fault, run-written, run-current, run-InStep,
}
use hauntty.Daemon.Session.Attach.{Welcomed, attach-Welcomed}
use hauntty.Daemon.Session.Exit.{SeesExit, write_times, exit-SeesExit}
use hauntty.Daemon.Session.Others.{others, with_size}
use hauntty.Daemon.Session.Sizes.{
  sizes, HasSizeOf, detach-size, resize_client-size, detach-prune_top,
}

abbrev small : TermSize
small = record { cols = 80; rows = 24; xpixel = 0; ypixel = 0 }

abbrev large : TermSize
large = record { cols = 100; rows = 30; xpixel = 0; ypixel = 0 }

abbrev at_size : TermSize → AttachSpec
at_size size = record { size = size; version = codes "v1"; read_only = false; created = false }

-- A terminal that shows the bytes of the last chunk.
abbrev last_chunk : List TermOp → List ℕ
last_chunk [] = []
last_chunk (feed d ∷ []) = d
last_chunk (feed d ∷ op ∷ ops) = last_chunk (op ∷ ops)
last_chunk (resize_to c r ∷ ops) = last_chunk ops

abbrev shown : List TermOp → ScreenDump
shown ops = record { bytes = last_chunk ops; cursor_row = 0; cursor_col = 0; is_alt_screen = false }

abbrev screen : Screen
screen ops = some (shown ops)

abbrev events : List Event
events =
    action (attach_req (at_size small))
    ∷ pty_output (104 ∷ [])
    ∷ feed_taken
    ∷ action (attach_req (at_size large))
    ∷ pty_output (105 ∷ 106 ∷ [])
    ∷ feed_taken
    ∷ write 0 true
    ∷ write 0 true
    ∷ write 0 true
    ∷ []

abbrev two_clients : Loop
two_clients =
    run screen events (start_session (codes "dusk-ember") 4711 resize_policy_smallest large)

-- The first client's writer fails.
abbrev failed : Loop
failed =
    run screen (events ++ write 0 false ∷ [])
      (start_session (codes "dusk-ember") 4711 resize_policy_smallest large)

run-no_fault_example : (two_clients.heap 0).fault ≡ false
run-no_fault_example =
    run-no_fault screen (codes "dusk-ember") 4711 resize_policy_smallest large events 0

run-written_example :
    Begins (outputs (two_clients.heap 0).sent) (drop (two_clients.started 0) two_clients.accepted)
run-written_example =
    run-written screen (codes "dusk-ember") 4711 resize_policy_smallest large events 0

-- What the two runs come to.
runs :
    (two_clients.finished ≡ false)
    × (contains 0 two_clients.clients ≡ true)
    × ((two_clients.heap 0).write_done ≡ false)
    × (reads_pty two_clients ≡ true)
    × ((failed.heap 0).write_done ≡ true)
    × (failed.finished ≡ false)
unfolding run step loop_turn turn act attach before_dump after_dump count_client add_client
    new_client top prune_top requeue accept flush take_feed write_client prune_finished_clients
    finish queue_output queue_one push notify notify_one notify_clients_changed notify_all
    arbitrate_resize arbitrate_sizes resize_if_changed resize_for_pending resize
    collect_client_sizes apply_resize_policy smallest text_eq pack_size unpack_size contains
    write_step write_turn
runs = (refl, refl, refl, refl, refl, refl)

sizes_left : others 0 two_clients.clients two_clients.heap ≡ large ∷ []
unfolding run step loop_turn turn act attach before_dump after_dump count_client add_client
    new_client top prune_top requeue accept flush take_feed write_client prune_finished_clients
    finish queue_output queue_one push notify notify_one notify_clients_changed notify_all
    arbitrate_resize arbitrate_sizes resize_if_changed resize_for_pending resize
    collect_client_sizes apply_resize_policy smallest text_eq pack_size unpack_size contains
    write_step write_turn others
sizes_left = refl

run-current_example :
    stream (two_clients.heap 0)
      ++ (if contains 0 two_clients.pending_clients
          then opt_list two_clients.pending_output
          else [])
    ≡ drop (two_clients.started 0) two_clients.accepted
run-current_example =
    run-current screen (codes "dusk-ember") 4711 resize_policy_smallest large events 0 runs.0 runs.1
      runs.2

run-InStep_example : intake two_clients ≡ two_clients.accepted
run-InStep_example =
    run-InStep screen (codes "dusk-ember") 4711 resize_policy_smallest large events runs.0

delivers : Delivers (core two_clients)
delivers =
    (reached-Inv screen (codes "dusk-ember") 4711 resize_policy_smallest large events).running
      runs.0

attach-Welcomed_example :
    Welcomed screen
      (at_size small)
      (shown (before_dump (at_size small) two_clients).term)
      two_clients
attach-Welcomed_example =
    attach-Welcomed screen (at_size small) (shown (before_dump (at_size small) two_clients).term)
      two_clients delivers run-InStep_example refl

exit-SeesExit_example :
    (fed (exit (pos 0) two_clients).term ≡ two_clients.accepted)
    × SeesExit
        (pos 0)
        (two_clients.heap 0)
        (write_times (suc (length (two_clients.heap 0).out_ch)) ((exit (pos 0) two_clients).heap 0))
        (drop (two_clients.started 0) two_clients.accepted)
exit-SeesExit_example =
    exit-SeesExit (pos 0) two_clients 0 delivers run-InStep_example runs.3 runs.1 runs.2

detach-size_example : HasSizeOf two_clients.resize_policy (large ∷ []) (detach 0 two_clients)
detach-size_example =
    detach-size large [] (omega arith) 0 two_clients delivers.distinct runs.1 sizes_left

sizes_after : with_size 0 large two_clients.clients two_clients.heap ≡ large ∷ large ∷ []
unfolding run step loop_turn turn act attach before_dump after_dump count_client add_client
    new_client top prune_top requeue accept flush take_feed write_client prune_finished_clients
    finish queue_output queue_one push notify notify_one notify_clients_changed notify_all
    arbitrate_resize arbitrate_sizes resize_if_changed resize_for_pending resize
    collect_client_sizes apply_resize_policy smallest text_eq pack_size unpack_size contains
    write_step write_turn with_size
sizes_after = refl

resize_client-size_example :
    HasSizeOf two_clients.resize_policy (large ∷ large ∷ []) (resize_client 0 large two_clients)
resize_client-size_example =
    resize_client-size large (large ∷ []) (omega arith) 0 large two_clients sizes_after

failed-Delivers : Delivers (core failed)
failed-Delivers =
    (reached-Inv screen (codes "dusk-ember") 4711 resize_policy_smallest large
        (events ++ write 0 false ∷ [])).running
      runs.5

-- The session stays at 80x24, though the one client that is left has 100x30.
detach-prune_top_example :
    (contains 0 (prune_top failed).clients ≡ false)
    × (detach 0 (prune_top failed) ≡ prune_top failed)
    × (size (detach 0 (prune_top failed)) ≡ size failed)
detach-prune_top_example = detach-prune_top 0 failed failed-Delivers.distinct runs.4

stale_size :
    Path (ℕ × ℕ) (size (detach 0 (prune_top failed))) (80, 24)
    × (sizes (prune_top failed) ≡ large ∷ [])
unfolding run step loop_turn turn act attach before_dump after_dump count_client add_client
    new_client top prune_top requeue accept flush take_feed write_client prune_finished_clients
    finish queue_output queue_one push notify notify_one notify_clients_changed notify_all
    arbitrate_resize arbitrate_sizes resize_if_changed resize_for_pending resize
    collect_client_sizes apply_resize_policy smallest text_eq pack_size unpack_size contains
    write_step write_turn detach
stale_size = (refl, refl)
