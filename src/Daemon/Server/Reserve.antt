-- ===== src/Daemon/Server/Reserve.antt =====
-- reserveSessionName of internal/daemon/dead_state.go, and the handlers of a creation and an attach with it
-- before them. Whether the state directory can be read, and what rand.IntN draws, are parameters.
use hauntty.Prelude.{
  ℕ, suc, Bool, List, ◌++◌, map, Option, none, some, Text, if◌then◌else◌, Result, ok, err, length,
}
use hauntty.Daemon.Names.{Draw, generate_unique_name}
use hauntty.Daemon.Server.{Server, Os, ServerError, io_failed, is_empty}
use hauntty.Daemon.Server.Handlers.{World, Answer, dead_session_names, handle_create, handle_attach}

-- What a handler gets from outside the server when it reserves a name.
pub record Outside : Type 0 where
  pub reads_directory : Bool
  pub draws : ℕ → Draw

abbrev pub live_session_names : Server → List Text
live_session_names s = map (λ (entry : Text × ℕ). entry.0) s.sessions

-- `reserved`, the names of running and of dead sessions.
unfoldable pub reserved_names : Outside → Server → Result ServerError (List Text)
reserved_names o s =
    if s.persistent
    then (if o.reads_directory
        then ok (live_session_names s ++ dead_session_names s)
        else err io_failed)
    else ok (live_session_names s)

-- `none` would be a search that runs out of fuel.
abbrev pub reserve_among :
    Outside → Result ServerError (List Text) → Result ServerError (Option Text)
reserve_among o (err e) = err e
reserve_among o (ok reserved) = ok (generate_unique_name (suc (length reserved)) o.draws reserved)

unfoldable pub reserve_session_name : Outside → Text → Server → Result ServerError (Option Text)
reserve_session_name o name s =
    if is_empty name then reserve_among o (reserved_names o s) else ok (some name)

-- What a handler does with the reserved name.
abbrev pub with_name :
    (Text → Server → Answer) → Result ServerError (Option Text) → Server → Option Answer
with_name handler (err e) s = some (s, err e)
with_name handler (ok none) s = none
with_name handler (ok (some name)) s = some (handler name s)

unfoldable pub serve_create : Os → World → Outside → Text → Bool → Server → Option Answer
serve_create os w o name force s =
    with_name (λ n. handle_create os w n force) (reserve_session_name o name s) s

unfoldable pub serve_attach : Os → World → Outside → Text → Server → Option Answer
serve_attach os w o name s = with_name (handle_attach os w) (reserve_session_name o name s) s
