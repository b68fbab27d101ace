-- ===== src/Daemon/Persister/Examples.antt =====
-- A shutdown with one session that can be saved and one that cannot.
use hauntty.Prelude.{
  ◌≡◌, refl, [], ◌∷◌, true, none, some, ok, codes, text_eq, pos, Bool, arith, ◌==◌, if◌then◌else◌,
  false,
}
use hauntty.Daemon.Persist.{SessionState}
use hauntty.Daemon.Persist.RoundTrip.{StateFits}
use hauntty.Daemon.Server.{Server, Os, file_of, find, prepare_restore_dead_session}
use hauntty.Daemon.Server.Paths.{has_slash}
use hauntty.Daemon.Persister.{Saver, save_all, shutdown, session_ended}
use hauntty.Daemon.Persister.Saving.{ArePlain, saved_bytes, saved_file, save_all-saved_file}
use hauntty.Daemon.Persister.Shutdown.{saved-restorable}

abbrev works : Os
works = record {
  directory = codes "hauntty" ∷ codes "state" ∷ [];
  reads = λ name. true;
  removes = λ name. true;
  writes = λ name. true;
}

-- Session 1 has a snapshot, session 2 has none.
abbrev saver : Saver
saver = record {
  snapshot = λ session. if session == 1 then some (7 ∷ []) else none;
  size = λ session. (80, 24);
  now = pos 1764000000;
}

abbrev server : Server
server = record { sessions = (codes "b", 2) ∷ (codes "a", 1) ∷ []; files = []; persistent = true }

abbrev saved : SessionState
saved = record { cols = 80; rows = 24; saved_at = pos 1764000000; snapshot = 7 ∷ [] }

saved-StateFits : StateFits saved
saved-StateFits = record {
  cols = omega arith;
  rows = omega arith;
  saved_at = omega arith;
  filled = omega arith;
  within = omega arith;
}

plain : ArePlain saver works server.sessions
unfolding has_slash
plain = (refl, (refl, tt))

there : find (codes "a") server.sessions ≡ some 1
unfolding find text_eq
there = refl

saved-restorable_example :
    (prepare_restore_dead_session works (codes "a") (shutdown saver works server).0 ≡ ok saved)
    × ((auto_exit : Bool)
        → prepare_restore_dead_session works
            (codes "a")
            (session_ended saver works false auto_exit (codes "a") 1 server).0
          ≡ ok saved)
saved-restorable_example =
    saved-restorable saver works server (codes "a") 1 (7 ∷ []) plain refl refl there refl refl refl
      saved-StateFits

save_all-saved_file_example :
    find (file_of works (codes "a")) (save_all saver works server).0.files
    ≡ saved_file saver works
        (saved_bytes saver works (codes "a") 1)
        (find (file_of works (codes "a")) server.files)
save_all-saved_file_example = save_all-saved_file saver works server (codes "a") 1 plain there
