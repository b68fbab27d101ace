-- ===== src/Daemon/Server.antt =====
-- The saved states and the map of sessions of the server: internal/daemon/dead_state.go and the parts of
-- server_attach.go that use them. The files are a map from their names (Paths) to their bytes;
-- whether the system's calls succeed, what starts a session, and what other connections do to sessions
-- and files meanwhile are parameters.
pub mod Paths
pub mod Files
pub mod Handlers
pub mod Restore
mod Examples
pub mod Create
pub mod Unforced
pub mod Prune
pub mod Reserve
pub mod Unused
pub mod Unnamed
use hauntty.Prelude.{
  ℕ, suc, ◌+◌, ◌%◌, ◌^◌, Bool, true, false, not, List, [], ◌∷◌, ◌++◌, Option, none, some, Text,
  text_eq, if◌then◌else◌, Result, ok, err,
}
use hauntty.Daemon.Server.Paths.{state_file}
use hauntty.Daemon.Persist.{SessionState, PersistError, encode_state, decode_state}

-- A Go map or a directory: the value of a name.
unfoldable pub find : {A : Type 0} → Text → List (Text × A) → Option A
find name [] = none
find name ((key, value) ∷ entries) = if text_eq key name then some value else find name entries

unfoldable pub erase : {A : Type 0} → Text → List (Text × A) → List (Text × A)
erase name [] = []
erase name ((key, value) ∷ entries) =
    let rest = erase name entries in if text_eq key name then rest else (key, value) ∷ rest

abbrev pub put : {A : Type 0} → Text → A → List (Text × A) → List (Text × A)
put name value entries = (name, value) ∷ erase name entries

abbrev pub is_some : {A : Type 0} → Option A → Bool
is_some none = false
is_some (some a) = true

pub record Server : Type 0 where
  pub sessions : List (Text × ℕ)
  -- The state files, those beside the state directory among them.
  pub files : List (Text × List ℕ)
  -- `persister` is not nil.
  pub persistent : Bool

-- The components of the state directory, and whether the calls of the system on the state file of a name
-- succeed.
pub record Os : Type 0 where
  pub directory : List Text
  pub reads : Text → Bool
  pub removes : Text → Bool
  pub writes : Text → Bool

abbrev pub file_of : Os → Text → Text
file_of os name = state_file os.directory name

pub data ServerError : Type 0 where
  name_required persistence_disabled session_is_running no_saved_state : ServerError
  dead_state_exists session_exists start_failed attach_failed : ServerError
  io_failed : ServerError
  bad_state : PersistError → ServerError

-- loadState: `none` is os.ErrNotExist.
unfoldable pub load_state : Os → Text → Server → Result ServerError (Option SessionState)
load_state os name s = elim (find (file_of os name) s.files) [
  | none ↦ ok none
  | some bytes ↦
      if os.reads name
      then elim (decode_state bytes) [ ok state ↦ ok (some state) | err e ↦ err (bad_state e) ]
      else err io_failed
]

unfoldable pub read_dead_session : Os → Text → Server → Result ServerError (Option SessionState)
read_dead_session os name s = if s.persistent then load_state os name s else ok none

-- cleanState: a file that is not there is no error.
unfoldable pub clean_state : Os → Text → Server → Result ServerError Server
clean_state os name s = elim (find (file_of os name) s.files) [
  | none ↦ ok s
  | some bytes ↦
      if os.removes name
      then ok (record s { files = erase (file_of os name) s.files })
      else err io_failed
]

unfoldable pub remove_dead_session : Os → Text → Server → Result ServerError Server
remove_dead_session os name s = if s.persistent then clean_state os name s else ok s

-- writeStateInDir: the file is replaced by a rename, or stays.
unfoldable pub write_state : Os → Text → SessionState → Server → Result ServerError Server
write_state os name state s = elim (encode_state state) [
  | ok bytes ↦
      if os.writes name
      then ok (record s { files = put (file_of os name) bytes s.files })
      else err io_failed
  | err e ↦ err (bad_state e)
]

unfoldable pub write_dead_session : Os → Text → SessionState → Server → Result ServerError Server
write_dead_session os name state s = if s.persistent then write_state os name state s else ok s

-- The end of prepareCreateDeadSession, behind what was read.
unfoldable pub prepare_create :
    Os → Text → Bool → Result ServerError (Option SessionState) → Server → Result ServerError Server
prepare_create os name true read s = remove_dead_session os name s
prepare_create os name false (err e) s = err e
prepare_create os name false (ok (some state)) s = err dead_state_exists
prepare_create os name false (ok none) s = ok s

unfoldable pub prepare_create_dead_session : Os → Text → Bool → Server → Result ServerError Server
unfolding prepare_create
prepare_create_dead_session os name force s =
    prepare_create os name force (read_dead_session os name s) s

abbrev pub is_empty : Text → Bool
is_empty [] = true
is_empty (c ∷ cs) = false

abbrev pub saved_state : Result ServerError (Option SessionState) → Result ServerError SessionState
saved_state (err e) = err e
saved_state (ok none) = err no_saved_state
saved_state (ok (some state)) = ok state

unfoldable pub prepare_restore_dead_session : Os → Text → Server → Result ServerError SessionState
prepare_restore_dead_session os name s =
    if is_empty name
    then err name_required
    else if not s.persistent
    then err persistence_disabled
    else if is_some (find name s.sessions)
    then err session_is_running
    else saved_state (read_dead_session os name s)

-- insertSessionOrExisting: `some` is the session that has the name already.
unfoldable pub insert_session_or_existing : Text → ℕ → Server → Server × Option ℕ
insert_session_or_existing name session s = elim (find name s.sessions) [
  | none ↦ (record s { sessions = put name session s.sessions }, none)
  | some existing ↦ (s, some existing)
]

abbrev pub remove_session : Text → Server → Server
remove_session name s = record s { sessions = erase name s.sessions }

-- rollbackRestoreDeadSession: a failure to write is joined to the error, and changes nothing.
unfoldable pub rollback_restore_dead_session : Os → Text → SessionState → Server → Server
rollback_restore_dead_session os name state s = elim (write_dead_session os name state s) [
  | ok written ↦ written
  | err e ↦ s
]
