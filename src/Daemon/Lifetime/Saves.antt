-- ===== src/Daemon/Lifetime/Saves.antt =====
-- Saves, a shutdown and the end of a session leave every saved state in place, or write it anew.
use hauntty.Prelude.{
  ℕ, ◌≡◌, ap, ◌∙◌, subst, Bool, Bool-cases, inl, inr, true, false, not, ◌&&◌, List, [], ◌∷◌,
  Option-cases, Text, text_eq, text_eq→eq, if◌then◌else◌, Result, Result-cases, ok, err,
}
use hauntty.Daemon.Persist.{SessionState, encode_state}
use hauntty.Daemon.Server.{Server, Os, file_of, ServerError, find, erase, put, is_some, write_state}
use hauntty.Daemon.Server.Files.{find-erase_other, find-put, find-put_other}
use hauntty.Daemon.Persister.{
  Saver, state_to_save, save_session, Saved, after_save, save_names, save_all, shutdown, saved_or,
  session_ended,
}

module _ (os : Os) (kept : Text) where
  -- The name has a saved state.
  abbrev pub IsKept : Server → Type 0
  IsKept s = is_some (find (file_of os kept) s.files) ≡ true

  abbrev pub KeptIfDone : Result ServerError Server → Type 0
  KeptIfDone (ok s) = IsKept s
  KeptIfDone (err e) = Unit {0}

  pub put-IsKept :
      (name : Text) (bytes : List ℕ) (files : List (Text × List ℕ))
      → is_some (find (file_of os kept) files) ≡ true
      → is_some (find (file_of os kept) (put (file_of os name) bytes files)) ≡ true
  put-IsKept name bytes files h = elim (Bool-cases (text_eq (file_of os name) (file_of os kept))) [
    | inl e ↦
        subst (λ k. is_some (find k (put (file_of os name) bytes files)) ≡ true)
          (text_eq→eq (file_of os name) (file_of os kept) e)
          (ap is_some (find-put (file_of os name) bytes files))
    | inr e ↦ ap is_some (find-put_other (file_of os name) (file_of os kept) bytes files e) ∙ h
  ]

  pub erase-IsKept :
      (name : Text) (files : List (Text × List ℕ))
      → text_eq (file_of os name) (file_of os kept) ≡ false
      → is_some (find (file_of os kept) files) ≡ true
      → is_some (find (file_of os kept) (erase (file_of os name) files)) ≡ true
  erase-IsKept name files apart h =
      ap is_some (find-erase_other (file_of os name) (file_of os kept) files apart) ∙ h

  pub write_state-KeptIfDone :
      (name : Text) (state : SessionState) (s : Server)
      → IsKept s
      → KeptIfDone (write_state os name state s)
  unfolding write_state
  write_state-KeptIfDone name state s h = elim (Result-cases (encode_state state)) [
    | inl (e, f) ↦ rw (f, write_state) tt
    | inr (bytes, f) ↦ elim (Bool-cases (os.writes name)) [
      | inl r ↦ rw (f, write_state, r) (put-IsKept name bytes s.files h)
      | inr r ↦ rw (f, write_state, r) tt
    ]
  ]

  pub save_session-KeptIfDone :
      (p : Saver) (name : Text) (session : ℕ) (s : Server)
      → IsKept s
      → KeptIfDone (save_session p os name session s)
  unfolding save_session
  save_session-KeptIfDone p name session s h = elim (Result-cases (state_to_save p session)) [
    | inl (e, f) ↦ rw (f, save_session) tt
    | inr (state, f) ↦ rw (f, save_session) (write_state-KeptIfDone name state s h)
  ]

  pub after_save-IsKept :
      (rest : Server → Saved) (name : Text) (s : Server) (r : Result ServerError Server)
      → ((v : Server) → IsKept v → IsKept (rest v).0)
      → IsKept s
      → KeptIfDone r
      → IsKept (after_save rest name s r).0
  after_save-IsKept rest name s (ok saved) keep h done = keep saved done
  after_save-IsKept rest name s (err e) keep h done = keep s h

  pub save_names-IsKept :
      (p : Saver) (sessions : List (Text × ℕ)) (names : List Text) (s : Server)
      → IsKept s
      → IsKept (save_names p os sessions names s).0
  unfolding save_names
  save_names-IsKept p sessions [] s h = h
  save_names-IsKept p sessions (n ∷ names) s h = elim (Option-cases (find n sessions)) [
    | inl e ↦ rw (e, save_names) (save_names-IsKept p sessions names s h)
    | inr (session, e) ↦
        rw (e, save_names)
          (after_save-IsKept (save_names p os sessions names) n s (save_session p os n session s)
            (save_names-IsKept p sessions names) h (save_session-KeptIfDone p n session s h))
  ]

  pub save_all-IsKept : (p : Saver) (s : Server) → IsKept s → IsKept (save_all p os s).0
  unfolding save_all
  save_all-IsKept p s h = save_names-IsKept p s.sessions _ s h

  pub shutdown-IsKept : (p : Saver) (s : Server) → IsKept s → IsKept (shutdown p os s).0
  unfolding shutdown
  shutdown-IsKept p s h = elim (Bool-cases s.persistent) [
    | inl e ↦ simp e (save_all-IsKept p s h)
    | inr e ↦ simp e h
  ]

  pub saved_or-IsKept :
      (s : Server) (r : Result ServerError Server) → IsKept s → KeptIfDone r → IsKept (saved_or s r)
  saved_or-IsKept s (ok saved) h done = done
  saved_or-IsKept s (err e) h done = h

  pub saved_if-IsKept :
      (b : Bool) (s : Server) (r : Result ServerError Server)
      → IsKept s
      → KeptIfDone r
      → IsKept (if b then saved_or s r else s)
  saved_if-IsKept true s r h done = saved_or-IsKept s r h done
  saved_if-IsKept false s r h done = h

  pub ended-IsKept :
      (p : Saver) (cancelled auto_exit : Bool) (name : Text) (session : ℕ) (s : Server)
      → IsKept s
      → IsKept (session_ended p os cancelled auto_exit name session s).0
  unfolding session_ended
  ended-IsKept p cancelled auto_exit name session s h =
      saved_if-IsKept (s.persistent && not cancelled) s (save_session p os name session s) h
        (save_session-KeptIfDone p name session s h)
