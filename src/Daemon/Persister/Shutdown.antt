-- ===== src/Daemon/Persister/Shutdown.antt =====
-- A session outlives the daemon and its own process: what was saved can be restored.
use hauntty.Prelude.{
  ℕ, ◌≡◌, refl, ap, ◌∙◌, subst, Bool, inl, inr, true, false, not, ◌&&◌, List, [], ◌∷◌, append-nil,
  Option-cases, none, some, Text, if◌then◌else◌, Result, ok, err,
}
use hauntty.Daemon.Persist.{SessionState, encode_state, decode_state}
use hauntty.Daemon.Persist.RoundTrip.{StateFits, decode_state-encode_state}
use hauntty.Daemon.Server.{
  Server, Os, file_of, ServerError, find, put, is_empty, load_state, read_dead_session, saved_state,
  prepare_restore_dead_session, remove_session,
}
use hauntty.Daemon.Server.Files.{find-erase, find-put}
use hauntty.Daemon.Persister.{
  Saver, save_session, Saved, after_save, save_names, save_all, shutdown, saved_or, session_ended,
}
use hauntty.Daemon.Persister.Saving.{
  ArePlain, stored, saved_bytes, saved_file, save_session_lem, save_all-saved_file,
}

loaded :
    (os : Os) (name : Text) (v : Server) (bytes : List ℕ) (state : SessionState)
    → os.reads name ≡ true
    → find (file_of os name) v.files ≡ some bytes
    → decode_state bytes ≡ ok state
    → load_state os name v ≡ ok (some state)
unfolding load_state
loaded os name v bytes state r f d = rw (f, load_state, r, d) refl

read_lem :
    (os : Os) (name : Text) (v : Server)
    → v.persistent ≡ true
    → read_dead_session os name v ≡ load_state os name v
unfolding read_dead_session
read_lem os name v p = simp p

-- A file that reads as a state, of no running session, can be restored.
restorable :
    (os : Os) (name : Text) (v : Server) (state : SessionState)
    → v.persistent ≡ true
    → is_empty name ≡ false
    → find name v.sessions ≡ none
    → load_state os name v ≡ ok (some state)
    → prepare_restore_dead_session os name v ≡ ok state
unfolding prepare_restore_dead_session
restorable os name v state p named free l =
    simp (named, p, free) (ap saved_state (read_lem os name v p ∙ l))

module _ (p : Saver) (os : Os) where
  after_save-persistent :
      (rest : Server → Saved) (name : Text) (s : Server) (r : Result ServerError (List ℕ))
      → ((v : Server) → v.persistent ≡ true → (rest v).0.persistent ≡ true)
      → s.persistent ≡ true
      → (after_save rest name s (stored p os name s r)).0.persistent ≡ true
  after_save-persistent rest name s (err e) keep h = keep s h
  after_save-persistent rest name s (ok bytes) keep h =
      keep (record s { files = put (file_of os name) bytes s.files }) h

  save_names-persistent :
      (sessions : List (Text × ℕ)) (names : List Text) (s : Server)
      → s.persistent ≡ true
      → (save_names p os sessions names s).0.persistent ≡ true
  unfolding save_names
  save_names-persistent sessions [] s h = h
  save_names-persistent sessions (n ∷ names) s h = elim (Option-cases (find n sessions)) [
    | inl e ↦ rw (e, save_names) (save_names-persistent sessions names s h)
    | inr (session, e) ↦
        rw (e, save_names, save_session_lem p os n session s)
          (after_save-persistent (save_names p os sessions names) n s (saved_bytes p os n session)
            (save_names-persistent sessions names) h)
  ]

  module _ (s : Server) (name : Text) (session : ℕ) (snapshot : List ℕ)
      (plain : ArePlain p os s.sessions) (persistent : s.persistent ≡ true)
      (named : is_empty name ≡ false) (there : find name s.sessions ≡ some session)
      (taken : p.snapshot session ≡ some snapshot) (readable : os.reads name ≡ true)
      (writable : os.writes name ≡ true) where
    -- What the save of the session holds.
    abbrev pub snapshot_state : SessionState
    snapshot_state = record {
      cols = (p.size session).0;
      rows = (p.size session).1;
      saved_at = p.now;
      snapshot = snapshot;
    }

    saved_bytes_lem :
        (bytes : List ℕ)
        → encode_state snapshot_state ≡ ok bytes
        → saved_bytes p os name session ≡ ok bytes
    saved_bytes_lem bytes e = rw (taken, e, writable) refl

    shutdown_lem : (shutdown p os s).0 ≡ record (save_all p os s).0 { sessions = [] }
    unfolding shutdown
    shutdown_lem = simp persistent

    save_all-persistent : (save_all p os s).0.persistent ≡ true
    unfolding save_all
    save_all-persistent = save_names-persistent s.sessions _ s persistent

    after_shutdown :
        (bytes : List ℕ)
        → encode_state snapshot_state ≡ ok bytes
        → decode_state bytes ≡ ok snapshot_state
        → prepare_restore_dead_session os name (shutdown p os s).0 ≡ ok snapshot_state
    unfolding find
    after_shutdown bytes e d =
        let v : Server = record (save_all p os s).0 { sessions = [] } in
        let file : find (file_of os name) v.files ≡ some bytes =
          save_all-saved_file p os s name session plain there
          ∙ ap (λ r. saved_file p os r (find (file_of os name) s.files))
              (saved_bytes_lem bytes e) in
        ap (prepare_restore_dead_session os name) shutdown_lem
        ∙ restorable os name v snapshot_state save_all-persistent named refl
            (loaded os name v bytes snapshot_state readable file d)

    ended_lem :
        (bytes : List ℕ) (auto_exit : Bool)
        → encode_state snapshot_state ≡ ok bytes
        → (session_ended p os false auto_exit name session s).0
          ≡ remove_session name (record s { files = put (file_of os name) bytes s.files })
    unfolding session_ended
    ended_lem bytes auto_exit e =
        ap
          (λ b.
            remove_session name
              (if b && not false then saved_or s (save_session p os name session s) else s))
          persistent
        ∙ ap (λ r. remove_session name (saved_or s r))
            (save_session_lem p os name session s
              ∙ ap (stored p os name s) (saved_bytes_lem bytes e))

    after_end :
        (bytes : List ℕ) (auto_exit : Bool)
        → encode_state snapshot_state ≡ ok bytes
        → decode_state bytes ≡ ok snapshot_state
        → prepare_restore_dead_session os name (session_ended p os false auto_exit name session s).0
          ≡ ok snapshot_state
    after_end bytes auto_exit e d =
        let v : Server =
          remove_session name (record s { files = put (file_of os name) bytes s.files }) in
        ap (prepare_restore_dead_session os name) (ended_lem bytes auto_exit e)
        ∙ restorable os name v snapshot_state persistent named (find-erase name s.sessions) (
            loaded os name v bytes snapshot_state readable
              (find-put (file_of os name) bytes s.files) d)

    -- With persistence, and where no session has a name with a slash, a session whose snapshot can be taken and fits a state file, under a name whose
    -- file can be read and written, can be restored with that snapshot, its size and the time of the
    -- save: behind a shutdown of the daemon, whatever becomes of the other sessions' saves, and behind
    -- its own end while the daemon runs on.
    pub saved-restorable :
        StateFits snapshot_state
        → (prepare_restore_dead_session os name (shutdown p os s).0 ≡ ok snapshot_state)
          × ((auto_exit : Bool)
              → prepare_restore_dead_session os name
                  (session_ended p os false auto_exit name session s).0
                ≡ ok snapshot_state)
    saved-restorable fits =
        let (bytes, e, d) = decode_state-encode_state snapshot_state [] fits in
        let whole : decode_state bytes ≡ ok snapshot_state =
          subst (λ bs. decode_state bs ≡ ok snapshot_state) (append-nil bytes) d in
        (after_shutdown bytes e whole, λ auto_exit. after_end bytes auto_exit e whole)
