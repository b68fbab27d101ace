-- ===== src/Daemon/Persister.antt =====
-- The saving of sessions of internal/daemon/persist.go, and the shutdown and the watch of a session of
-- internal/daemon/server.go and server_attach.go, over the server's map of sessions and files. The
-- terminal's snapshot, the size of a session and the clock are parameters.
pub mod Saving
pub mod Shutdown
mod Examples
use hauntty.Prelude.{
  ℕ, Bool, true, false, not, ◌&&◌, ◌||◌, List, [], ◌∷◌, ◌++◌, map, Option, none, some, Text, ℤ, ltb,
  ◌==◌, if◌then◌else◌, Result, ok, err,
}
use hauntty.Daemon.Persist.{SessionState}
use hauntty.Daemon.Server.{Server, Os, ServerError, io_failed, find, write_state, remove_session}

pub record Saver : Type 0 where
  -- `none` is a snapshot that fails.
  pub snapshot : ℕ → Option (List ℕ)
  pub size : ℕ → ℕ × ℕ
  pub now : ℤ

-- What saveSession writes of a session, or no snapshot.
abbrev pub state_with : Saver → ℕ → Option (List ℕ) → Result ServerError SessionState
state_with p session none = err io_failed
state_with p session (some bytes) = ok (record {
  cols = (p.size session).0;
  rows = (p.size session).1;
  saved_at = p.now;
  snapshot = bytes;
})

abbrev pub state_to_save : Saver → ℕ → Result ServerError SessionState
state_to_save p session = state_with p session (p.snapshot session)

unfoldable pub save_session : Saver → Os → Text → ℕ → Server → Result ServerError Server
save_session p os name session s = elim (state_to_save p session) [
  | err e ↦ err e
  | ok state ↦ write_state os name state s
]

-- The order of strings, by bytes.
unfoldable pub text_le : Text → Text → Bool
text_le [] t = true
text_le (x ∷ xs) [] = false
text_le (x ∷ xs) (y ∷ ys) = ltb x y || (x == y && text_le xs ys)

-- slices.Sort.
unfoldable pub insert_sorted : Text → List Text → List Text
unfolding text_le
insert_sorted name [] = name ∷ []
insert_sorted name (n ∷ names) =
    if text_le name n then name ∷ n ∷ names else n ∷ insert_sorted name names

unfoldable pub sort : List Text → List Text
unfolding insert_sorted
sort [] = []
sort (n ∷ names) = insert_sorted n (sort names)

-- The server and the errors behind a save.
abbrev pub Saved : Type 0
Saved = Server × List (Text × ServerError)

abbrev pub after_save : (Server → Saved) → Text → Server → Result ServerError Server → Saved
after_save rest name s (ok saved) = rest saved
after_save rest name s (err e) = ((rest s).0, (name, e) ∷ (rest s).1)

-- The loop of saveAllWith, with the map of sessions that was taken before.
unfoldable pub save_names : Saver → Os → List (Text × ℕ) → List Text → Server → Saved
save_names p os sessions [] s = (s, [])
save_names p os sessions (name ∷ names) s = elim (find name sessions) [
  | none ↦ save_names p os sessions names s
  | some session ↦
      after_save (save_names p os sessions names) name s (save_session p os name session s)
]

abbrev pub names_of : List (Text × ℕ) → List Text
names_of sessions = map (λ (entry : Text × ℕ). entry.0) sessions

unfoldable pub save_all : Saver → Os → Server → Saved
save_all p os s = save_names p os s.sessions (sort (names_of s.sessions)) s

-- Shutdown: the server behind it, and the sessions that are closed. The errors of the save are logged.
unfoldable pub shutdown : Saver → Os → Server → Server × List ℕ
unfolding save_all
shutdown p os s =
    let saved = if s.persistent then (save_all p os s).0 else s in
    (record saved { sessions = [] }, map (λ (entry : Text × ℕ). entry.1) s.sessions)

abbrev pub saved_or : Server → Result ServerError Server → Server
saved_or s (ok saved) = saved
saved_or s (err e) = s

abbrev pub is_empty_map : List (Text × ℕ) → Bool
is_empty_map [] = true
is_empty_map (entry ∷ entries) = false

-- watchSession behind the end of a session: it is saved unless the server shuts down, and is taken
-- off the map; with auto-exit the last one shuts the server down, which the second part tells.
unfoldable pub session_ended : Saver → Os → Bool → Bool → Text → ℕ → Server → Server × Bool
session_ended p os cancelled auto_exit name session s =
    let saved =
      if s.persistent && not cancelled then saved_or s (save_session p os name session s) else s in
    let left = remove_session name saved in (left, auto_exit && is_empty_map left.sessions)
