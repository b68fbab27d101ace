-- ===== src/Daemon/Connection/Examples.antt =====
-- A connection that lists, attaches read-only, types and detaches.
use hauntty.Prelude.{◌≡◌, ◌≤◌, refl, true, false, List, [], ◌∷◌, some, codes, length, All}
use hauntty.Protocol.Messages.{Message, Attach, attach, input, list, detach}
use hauntty.Daemon.Connection.{Answers, control_loop}
use hauntty.Daemon.Connection.Detaching.{opened, ended, control_loop-Balanced}
use hauntty.Daemon.Connection.ReadOnly.{is_write, control_loop-passive}

abbrev watch : Attach
watch = record {
  name = codes "dusk-ember";
  command = [];
  env = [];
  cwd = [];
  cols = 80;
  rows = 24;
  xpixel = 0;
  ypixel = 0;
  scrollback = 0;
  read_only = true;
  restore = false;
}

abbrev answers : Answers
answers left m = some (1, 7)

abbrev messages : List Message
messages =
    list (record { include_clients = true })
    ∷ attach watch
    ∷ input (record { payload = 97 ∷ [] })
    ∷ detach
    ∷ []

control_loop-Balanced_example :
    (ended (control_loop answers messages) ≡ opened (control_loop answers messages))
    × (length (opened (control_loop answers messages)) ≤ 1)
control_loop-Balanced_example = control_loop-Balanced answers messages

control_loop-passive_example : All (λ call. is_write call ≡ false) (control_loop answers messages)
control_loop-passive_example =
    control_loop-passive answers messages (refl, (refl, (refl, (refl, tt))))
