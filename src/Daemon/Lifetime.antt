-- ===== src/Daemon/Lifetime.antt =====
-- The operations of internal/daemon that change the map of sessions or the saved states, one after the
-- other in any order, as a step relation: handleCreate, handleAttach and handleAttachRestore of
-- server_attach.go, saveAll of persist.go, watchSession and shutdown. The steps are those that do not
-- remove the saved state of one name, `kept`: no restore and no forced creation under a name with its
-- file, no prune, and no other connection that removes it.
pub mod Saves
pub mod Keeping
mod Examples
use hauntty.Prelude.{ℕ, ◌≡◌, Bool, true, false, List, Text, text_eq}
use hauntty.Daemon.Server.{Server, Os, file_of, find, is_some}
use hauntty.Daemon.Server.Handlers.{World, handle_create, handle_attach, handle_attach_restore}
use hauntty.Daemon.Persister.{Saver, save_all, shutdown, session_ended}

module _ (os : Os) (kept : Text) where
  -- The other connections do not remove the saved state.
  abbrev pub Leaves : World → Type 0
  Leaves w =
      (files : List (Text × List ℕ))
      → is_some (find (file_of os kept) files) ≡ true
      → is_some (find (file_of os kept) (w.other_files files)) ≡ true

  pub data Step : Server → Server → Type 0 where
    creates :
        (w : World) (name : Text) (s : Server)
        → Leaves w
        → Step s (handle_create os w name false s).0
    attaches :
        (w : World) (name : Text) (s : Server) → Leaves w → Step s (handle_attach os w name s).0
    forces :
        (w : World) (name : Text) (force : Bool) (s : Server)
        → text_eq (file_of os name) (file_of os kept) ≡ false
        → Leaves w
        → Step s (handle_create os w name force s).0
    restores :
        (w : World) (name : Text) (s : Server)
        → text_eq (file_of os name) (file_of os kept) ≡ false
        → Leaves w
        → Step s (handle_attach_restore os w name s).0
    saves : (p : Saver) (s : Server) → Step s (save_all p os s).0
    ends :
        (p : Saver) (cancelled auto_exit : Bool) (name : Text) (session : ℕ) (s : Server)
        → Step s (session_ended p os cancelled auto_exit name session s).0
    shuts_down : (p : Saver) (s : Server) → Step s (shutdown p os s).0

  pub data Steps : Server → Server → Type 0 where
    finished : {s : Server} → Steps s s
    after : {s t u : Server} → Step s t → Steps t u → Steps s u
