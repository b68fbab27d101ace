-- ===== src/Daemon/Server/Restore.antt =====
-- A restore takes the saved state only when the client is attached.
use hauntty.Prelude.{
  append-nil, ◌⊎◌, ℕ, ◌≡◌, sym, ◌∙◌, ap, subst, true, false, List, [], Option, Option-cases, none,
  some, Text, ok, err, Bool-cases, inl, inr,
}
use hauntty.Daemon.Persist.{SessionState, encode_state, decode_state}
use hauntty.Daemon.Persist.RoundTrip.{StateFits, decode_state-encode_state}
use hauntty.Daemon.Server.{
  Server, Os, file_of, ServerError, io_failed, name_required, session_is_running, is_empty, find,
  erase, put, is_some, load_state, read_dead_session, clean_state, remove_dead_session, write_state,
  write_dead_session, prepare_restore_dead_session, insert_session_or_existing, remove_session,
  rollback_restore_dead_session,
}
use hauntty.Daemon.Server.Files.{find-put}
use hauntty.Daemon.Server.Handlers.{
  World, Answer, meanwhile, attach_restored, commit_restore, handle_attach_restore,
}

module _ (os : Os) (name : Text) (bytes : List ℕ) (state : SessionState)
    (sound : decode_state bytes ≡ ok state) (fits : StateFits state)
    (readable : os.reads name ≡ true) (writable : os.writes name ≡ true) where
  -- The name's file reads as the state.
  abbrev Holds : Server → Type 0
  Holds s = load_state os name s ≡ ok (some state)

  -- The other connections do not change the name's file meanwhile.
  abbrev pub LeavesFile : World → Server → Type 0
  LeavesFile w s = find (file_of os name) (w.other_files s.files) ≡ find (file_of os name) s.files

  abbrev Unmoved : Answer → Type 0
  Unmoved (s, ok session) = Unit {0}
  Unmoved (s, err e) = Holds s

  file-Holds :
      (s : Server) (file : List ℕ)
      → find (file_of os name) s.files ≡ some file
      → decode_state file ≡ ok state
      → Holds s
  unfolding load_state
  file-Holds s file f d = rw (f, load_state, readable, d)

  written :
      (s : Server) (file : List ℕ)
      → encode_state state ≡ ok file
      → write_state os name state s ≡ ok (record s { files = put (file_of os name) file s.files })
  unfolding write_state
  written s file e = rw (e, write_state, writable)

  write_dead_lem :
      (s : Server)
      → s.persistent ≡ true
      → write_dead_session os name state s ≡ write_state os name state s
  unfolding write_dead_session
  write_dead_lem s p = simp p

  rolled_back :
      (s : Server) (file : List ℕ)
      → s.persistent ≡ true
      → encode_state state ≡ ok file
      → rollback_restore_dead_session os name state s
        ≡ record s { files = put (file_of os name) file s.files }
  unfolding rollback_restore_dead_session
  rolled_back s file p e =
      let done : write_dead_session os name state s
          ≡ ok (record s { files = put (file_of os name) file s.files }) =
        write_dead_lem s p ∙ written s file e in
      rw (done, rollback_restore_dead_session)

  rollback-Holds :
      (s : Server) → s.persistent ≡ true → Holds (rollback_restore_dead_session os name state s)
  rollback-Holds s p =
      let file = decode_state-encode_state state [] fits in
      subst Holds (sym (rolled_back s file.0 p file.1)) (
        file-Holds (record s { files = put (file_of os name) file.0 s.files }) file.0
          (find-put (file_of os name) file.0 s.files)
          (ap decode_state (sym (append-nil file.0)) ∙ file.2))

  remove_dead_lem :
      (s : Server) → s.persistent ≡ true → remove_dead_session os name s ≡ clean_state os name s
  unfolding remove_dead_session
  remove_dead_lem s p = simp p

  cleaned :
      (s : Server)
      → find (file_of os name) s.files ≡ some bytes
      → os.removes name ≡ true
      → clean_state os name s ≡ ok (record s { files = erase (file_of os name) s.files })
  unfolding clean_state
  cleaned s f r = rw (f, clean_state, r)

  uncleaned :
      (s : Server)
      → find (file_of os name) s.files ≡ some bytes
      → os.removes name ≡ false
      → clean_state os name s ≡ err io_failed
  unfolding clean_state
  uncleaned s f r = rw (f, clean_state, r)

  attach-Unmoved :
      (w : World) (session : ℕ) (s : Server)
      → s.persistent ≡ true
      → Unmoved (attach_restored os w name state session s)
  unfolding attach_restored
  attach-Unmoved w session s p = elim (Bool-cases (w.attaches session)) [
    | inl a ↦ rw a tt
    | inr a ↦ rw a (rollback-Holds (remove_session name s) p)
  ]

  commit-Unmoved :
      (w : World) (session : ℕ) (s : Server) (o : Option ℕ)
      → s.persistent ≡ true
      → find (file_of os name) s.files ≡ some bytes
      → Unmoved (commit_restore os w name state session (s, o))
  unfolding commit_restore
  commit-Unmoved w session s (some existing) p f = file-Holds s bytes f sound
  commit-Unmoved w session s none p f = elim (Bool-cases (os.removes name)) [
    | inl r ↦
        rw (remove_dead_lem s p, cleaned s f r, commit_restore)
          (attach-Unmoved w session (record s { files = erase (file_of os name) s.files }) p)
    | inr r ↦
        rw (remove_dead_lem s p, uncleaned s f r, commit_restore)
          (file-Holds (remove_session name s) bytes f sound)
  ]

  inserted-Unmoved :
      (w : World) (session : ℕ) (s : Server)
      → s.persistent ≡ true
      → find (file_of os name) s.files ≡ some bytes
      → Unmoved (commit_restore os w name state session (insert_session_or_existing name session s))
  unfolding insert_session_or_existing
  inserted-Unmoved w session s p f = elim (Option-cases (find name s.sessions)) [
    | inl e ↦
        rw (e, insert_session_or_existing)
          (commit-Unmoved w session (record s { sessions = put name session s.sessions }) none p f)
    | inr (existing, e) ↦
        rw (e, insert_session_or_existing) (commit-Unmoved w session s (some existing) p f)
  ]

  prepared :
      (s : Server)
      → s.persistent ≡ true
      → find (file_of os name) s.files ≡ some bytes
      → (prepare_restore_dead_session os name s ≡ ok state)
        ⊎ ((e : ServerError) × (prepare_restore_dead_session os name s ≡ err e))
  unfolding prepare_restore_dead_session read_dead_session
  prepared s p f = elim (Bool-cases (is_empty name)) [
    | inl e ↦ inr (name_required, rw e)
    | inr e ↦ elim (Bool-cases (is_some (find name s.sessions))) [
      | inl r ↦ inr (session_is_running, simp (e, p, r))
      | inr r ↦ inl (simp (e, p, r, file-Holds s bytes f sound))
    ]
  ]

  handled-Unmoved :
      (w : World) (s : Server)
      → LeavesFile w s
      → s.persistent ≡ true
      → find (file_of os name) s.files ≡ some bytes
      → Unmoved (handle_attach_restore os w name s)
  unfolding handle_attach_restore
  handled-Unmoved w s leaves p f = elim (prepared s p f) [
    | inr (e, r) ↦ rw (r, handle_attach_restore) (file-Holds s bytes f sound)
    | inl r ↦ elim (Option-cases (w.restores state)) [
      | inl n ↦ rw (r, handle_attach_restore, n) (file-Holds s bytes f sound)
      | inr (session, n) ↦
          rw (r, handle_attach_restore, n)
            (inserted-Unmoved w session (meanwhile w s) p (leaves ∙ f))
    ]
  ]

  failed-Holds : (a : Answer) (e : ServerError) → Unmoved a → a.1 ≡ err e → Holds a.0
  failed-Holds (s, ok session) e u failed = cc
  failed-Holds (s, err e') e u failed = u

  -- When an attach that restores a session ends in an error, whichever step it came from, the saved
  -- state still reads as before: the file is kept, or is written again after the session did not take
  -- the client. The state fits the file format, the system's calls that read and write it succeed, and
  -- the other connections leave the file as it is while the session starts; what removes it, what starts
  -- the session and what the other connections do to the sessions is free.
  pub restore-Unmoved :
      (w : World) (s : Server) (e : ServerError)
      → LeavesFile w s
      → s.persistent ≡ true
      → find (file_of os name) s.files ≡ some bytes
      → (handle_attach_restore os w name s).1 ≡ err e
      → load_state os name (handle_attach_restore os w name s).0 ≡ ok (some state)
  restore-Unmoved w s e leaves p f failed =
      failed-Holds (handle_attach_restore os w name s) e (handled-Unmoved w s leaves p f) failed
