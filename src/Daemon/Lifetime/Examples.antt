-- ===== src/Daemon/Lifetime/Examples.antt =====
-- A forced creation, a save and a shutdown beside a saved state.
use hauntty.Prelude.{◌≡◌, refl, true, false, [], ◌∷◌, none, some, codes, text_eq, pos}
use hauntty.Daemon.Server.{Server, Os, file_of, find}
use hauntty.Daemon.Server.Paths.{state_file, resolve, components, same_path, enter}
use hauntty.Daemon.Server.Handlers.{World, handle_create}
use hauntty.Daemon.Persister.{Saver, save_all, shutdown}
use hauntty.Daemon.Lifetime.{Steps, forces, saves, shuts_down, finished, after}
use hauntty.Daemon.Lifetime.Saves.{IsKept}
use hauntty.Daemon.Lifetime.Keeping.{steps-IsKept}

abbrev works : Os
works = record {
  directory = codes "hauntty" ∷ codes "state" ∷ [];
  reads = λ name. true;
  removes = λ name. true;
  writes = λ name. true;
}

abbrev world : World
world = record {
  starts = some 2;
  restores = λ state. some 2;
  attaches = λ session. true;
  others = λ sessions. sessions;
  other_files = λ files. files;
}

abbrev saver : Saver
saver = record { snapshot = λ session. none; size = λ session. (80, 24); now = pos 0 }

abbrev server : Server
server = record {
  sessions = [];
  files = (codes "b", 1 ∷ []) ∷ (codes "a", 2 ∷ []) ∷ [];
  persistent = true;
}

abbrev forced : Server
forced = (handle_create works world (codes "b") true server).0

apart : text_eq (file_of works (codes "b")) (file_of works (codes "a")) ≡ false
unfolding text_eq state_file resolve components same_path enter
apart = refl

steps : Steps works (codes "a") server (shutdown saver works (save_all saver works forced).0).0
steps =
    after (forces world (codes "b") true server apart (λ files h. h)) (
      after (saves saver forced)
        (after (shuts_down saver (save_all saver works forced).0) finished))

saved : IsKept works (codes "a") server
unfolding find text_eq state_file resolve components same_path enter
saved = refl

steps-IsKept_example :
    IsKept works (codes "a") (shutdown saver works (save_all saver works forced).0).0
steps-IsKept_example = steps-IsKept works (codes "a") steps saved
