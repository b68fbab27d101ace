-- ===== src/Daemon/Server/Handlers.antt =====
-- handleCreate, handleAttach and handleAttachRestore of internal/daemon/server_attach.go for a name that
-- the client gave, and pruneDeadSessions. A handler gives the server behind it and the session, or
-- the error that it answers with.
use hauntty.Prelude.{
  ℕ, ◌+◌, ◌%◌, ◌^◌, Bool, ◌||◌, List, [], ◌∷◌, Option, none, some, Text, if◌then◌else◌, Result, ok,
  err,
}
use hauntty.Daemon.Persist.{SessionState}
use hauntty.Daemon.Server.Paths.{has_slash}
use hauntty.Daemon.Server.{
  Server, Os, ServerError, session_exists, start_failed, attach_failed, dead_state_exists, find,
  is_some, read_dead_session, remove_dead_session, prepare_create_dead_session,
  prepare_restore_dead_session, insert_session_or_existing, remove_session,
  rollback_restore_dead_session,
}

-- What starts a session, whether a session takes a client, and what the other connections do to the map
-- of sessions and to the state files while one is started.
pub record World : Type 0 where
  pub starts : Option ℕ
  pub restores : SessionState → Option ℕ
  pub attaches : ℕ → Bool
  pub others : List (Text × ℕ) → List (Text × ℕ)
  pub other_files : List (Text × List ℕ) → List (Text × List ℕ)

abbrev pub Answer : Type 0
Answer = Server × Result ServerError ℕ

abbrev pub meanwhile : World → Server → Server
meanwhile w s = record s { sessions = w.others s.sessions; files = w.other_files s.files }

unfoldable pub add_created : Server × Option ℕ → ℕ → Answer
add_created (s, none) session = (s, ok session)
add_created (s, some existing) session = (s, err session_exists)

unfoldable pub handle_create : Os → World → Text → Bool → Server → Answer
unfolding add_created
handle_create os w name force s =
    if is_some (find name s.sessions)
    then (s, err session_exists)
    else elim (prepare_create_dead_session os name force s) [
      | err e ↦ (s, err e)
      | ok ready ↦ elim w.starts [
        | none ↦ (ready, err start_failed)
        | some session ↦
            add_created (insert_session_or_existing name session (meanwhile w ready)) session
      ]
    ]

-- The attach to a session that this handler started, or else to the one that had the name first.
unfoldable pub attach_started : World → Text → Server × Option ℕ → ℕ → Answer
attach_started w name (s, none) session =
    if w.attaches session then (s, ok session) else (remove_session name s, err attach_failed)
attach_started w name (s, some existing) session =
    (s, if w.attaches existing then ok existing else err attach_failed)

unfoldable pub attach_new :
    World → Text → Result ServerError (Option SessionState) → Server → Answer
unfolding attach_started
attach_new w name (err e) s = (s, err e)
attach_new w name (ok (some state)) s = (s, err dead_state_exists)
attach_new w name (ok none) s = elim w.starts [
  | none ↦ (s, err start_failed)
  | some session ↦
      attach_started w name (insert_session_or_existing name session (meanwhile w s)) session
]

unfoldable pub handle_attach : Os → World → Text → Server → Answer
unfolding attach_new
handle_attach os w name s = elim (find name s.sessions) [
  | none ↦ attach_new w name (read_dead_session os name s) s
  | some existing ↦ (s, if w.attaches existing then ok existing else err attach_failed)
]

-- The attach of a restored session, or the rollback.
unfoldable pub attach_restored : Os → World → Text → SessionState → ℕ → Server → Answer
attach_restored os w name state session s =
    if w.attaches session
    then (s, ok session)
    else (rollback_restore_dead_session os name state (remove_session name s), err attach_failed)

unfoldable pub commit_restore : Os → World → Text → SessionState → ℕ → Server × Option ℕ → Answer
unfolding attach_restored
commit_restore os w name state session (s, some existing) = (s, err session_exists)
commit_restore os w name state session (s, none) = elim (remove_dead_session os name s) [
  | err e ↦ (remove_session name s, err e)
  | ok gone ↦ attach_restored os w name state session gone
]

unfoldable pub handle_attach_restore : Os → World → Text → Server → Answer
unfolding commit_restore
handle_attach_restore os w name s = elim (prepare_restore_dead_session os name s) [
  | err e ↦ (s, err e)
  | ok state ↦ elim (w.restores state) [
    | none ↦ (s, err start_failed)
    | some session ↦
        commit_restore os w name state session
          (insert_session_or_existing name session (meanwhile w s))
  ]
]

-- listDeadSessions: the names of the files of the directory that no running session has.
unfoldable pub dead_names : List (Text × List ℕ) → List (Text × ℕ) → List Text
dead_names [] sessions = []
dead_names ((name, bytes) ∷ files) sessions =
    let rest = dead_names files sessions in
    if has_slash name || is_some (find name sessions) then rest else name ∷ rest

unfoldable pub dead_session_names : Server → List Text
unfolding dead_names
dead_session_names s = if s.persistent then dead_names s.files s.sessions else []

-- The loop of pruneDeadSessions; `count` is a uint32.
unfoldable pub prune_names : Os → List Text → ℕ → Server → Server × Result ServerError ℕ
prune_names os [] count s = (s, ok count)
prune_names os (name ∷ names) count s = elim (remove_dead_session os name s) [
  | ok pruned ↦ prune_names os names ((count + 1) % 2 ^ 32) pruned
  | err e ↦ (s, err e)
]

unfoldable pub prune_dead_sessions : Os → Server → Server × Result ServerError ℕ
unfolding dead_session_names prune_names
prune_dead_sessions os s = prune_names os (dead_session_names s) 0 s
