-- ===== src/Daemon/Server/Examples.antt =====
-- A server with one running and one saved session.
use hauntty.Prelude.{◌≡◌, refl, true, false, [], ◌∷◌, some, text_eq, codes, pos, ok, err, arith}
use hauntty.Protocol.Encoding.{read_full, read_u8, read_u16, read_u32}
use hauntty.Daemon.Persist.{
  SessionState, decode_state, put_state, read_versioned, read_fields, read_snapshot, read_u64,
  reading,
}
use hauntty.Daemon.Persist.RoundTrip.{StateFits}
use hauntty.Daemon.Server.{
  Server, Os, file_of, attach_failed, find, load_state, read_dead_session, remove_dead_session,
  clean_state, prepare_create, prepare_create_dead_session, prepare_restore_dead_session,
  insert_session_or_existing,
}
use hauntty.Daemon.Server.Paths.{state_file, resolve, components, same_path, enter, path_text}
use hauntty.Daemon.Server.Handlers.{
  World, add_created, attach_restored, commit_restore, handle_create, handle_attach_restore,
}
use hauntty.Daemon.Server.Restore.{restore-Unmoved}
use hauntty.Daemon.Server.Create.{Registered, create-Registered}
use hauntty.Daemon.Server.Reserve.{Outside}
use hauntty.Daemon.Server.Unused.{Unused}

abbrev saved : SessionState
saved = record { cols = 80; rows = 24; saved_at = pos 1764000000; snapshot = 1 ∷ 2 ∷ 3 ∷ [] }

saved-StateFits : StateFits saved
saved-StateFits = record {
  cols = omega arith;
  rows = omega arith;
  saved_at = omega arith;
  filled = omega arith;
  within = omega arith;
}

abbrev works : Os
works = record {
  directory = codes "hauntty" ∷ codes "state" ∷ [];
  reads = λ name. true;
  removes = λ name. true;
  writes = λ name. true;
}

-- Sessions start, and take no client.
abbrev world : World
world = record {
  starts = some 2;
  restores = λ state. some 2;
  attaches = λ session. false;
  others = λ sessions. sessions;
  other_files = λ files. files;
}

abbrev server : Server
server = record {
  sessions = (codes "dusk-ember", 1) ∷ [];
  files = (codes "pale-moor", put_state saved) ∷ [];
  persistent = true;
}

runs :
    (decode_state (put_state saved) ≡ ok saved)
    × (find (file_of works (codes "pale-moor")) server.files ≡ some (put_state saved))
    × ((handle_attach_restore works world (codes "pale-moor") server).1 ≡ err attach_failed)
    × ((handle_create works world (codes "void-gate") false server).1 ≡ ok 2)
unfolding find text_eq decode_state read_versioned read_fields read_snapshot read_u64 reading
    read_full read_u8 read_u16 read_u32 handle_attach_restore prepare_restore_dead_session
    read_dead_session load_state commit_restore attach_restored insert_session_or_existing
    remove_dead_session clean_state handle_create prepare_create_dead_session prepare_create
    add_created state_file resolve components same_path enter
runs = (refl, refl, refl, refl)

restore-Unmoved_example :
    load_state works
      (codes "pale-moor")
      (handle_attach_restore works world (codes "pale-moor") server).0
    ≡ ok (some saved)
restore-Unmoved_example =
    restore-Unmoved works (codes "pale-moor") (put_state saved) saved runs.0 saved-StateFits refl
      refl world server attach_failed refl refl runs.1 runs.2

create-Registered_example :
    Registered works world
      (codes "void-gate")
      2
      (handle_create works world (codes "void-gate") false server).0
      server.sessions
create-Registered_example = create-Registered works world (codes "void-gate") false server 2 runs.3

-- Sessions start, and take their clients.
abbrev kind_world : World
kind_world = record world { attaches = λ session. true }

abbrev outside : Outside
outside = record { reads_directory = true; draws = λ i. record { adjective = 15; noun = 21 } }

-- Three names for one file, and a file beside the state directory.
one_file :
    (file_of works (codes "./work") ≡ codes "work")
    × (file_of works (codes "work") ≡ codes "work")
    × (file_of works (codes "../hauntty/work") ≡ codes "work")
    × (file_of works (codes "../work") ≡ codes "/state/work")
unfolding state_file resolve components same_path enter text_eq path_text
one_file = (refl, refl, refl, refl)
