-- ===== src/Daemon/Server/Create.antt =====
-- A new session gets a name that is free.
use hauntty.Prelude.{
  ℕ, ◌≡◌, refl, subst, Bool, true, false, List, Option, Option-cases, none, some, Text,
  if◌then◌else◌, Result, ok, err, Bool-cases, inl, inr,
}
use hauntty.Daemon.Persist.{SessionState}
use hauntty.Daemon.Server.{
  Server, Os, file_of, ServerError, find, is_some, read_dead_session, prepare_create,
  prepare_create_dead_session, insert_session_or_existing, clean_state, remove_dead_session,
}
use hauntty.Daemon.Server.{clean_state}
use hauntty.Daemon.Server.Files.{find-put}
use hauntty.Daemon.Server.Handlers.{World, Answer, meanwhile, add_created, handle_create}

module _ (os : Os) (w : World) (name : Text) where
  -- The session has the name, which no connection had taken when it was entered.
  abbrev pub Registered : ℕ → Server → List (Text × ℕ) → Type 0
  Registered session after before =
      (find name after.sessions ≡ some session) × (find name before ≡ none)

  abbrev Answers : List (Text × ℕ) → Answer → Type 0
  Answers before (s, ok session) = Registered session s before
  Answers before (s, err e) = Unit {0}

  inserted-Answers :
      (session : ℕ) (s : Server)
      → Answers s.sessions (add_created (insert_session_or_existing name session s) session)
  unfolding insert_session_or_existing add_created
  inserted-Answers session s = elim (Option-cases (find name s.sessions)) [
    | inl e ↦ rw (e, insert_session_or_existing) (find-put name session s.sessions, e)
    | inr (existing, e) ↦ rw (e, insert_session_or_existing) tt
  ]

  abbrev SameSessions : Server → Result ServerError Server → Type 0
  SameSessions s (ok ready) = ready.sessions ≡ s.sessions
  SameSessions s (err e) = Unit {0}

  clean-SameSessions : (s : Server) → SameSessions s (clean_state os name s)
  unfolding clean_state
  clean-SameSessions s = elim (Option-cases (find (file_of os name) s.files)) [
    | inl e ↦ rw (e, clean_state) refl
    | inr (bytes, e) ↦ elim (Bool-cases (os.removes name)) [
      | inl r ↦ rw (e, clean_state, r) refl
      | inr r ↦ rw (e, clean_state, r) tt
    ]
  ]

  removed_if :
      (persistent : Bool) (s : Server)
      → SameSessions s (if persistent then clean_state os name s else ok s)
  removed_if true s = clean-SameSessions s
  removed_if false s = refl

  prepare-SameSessions :
      (force : Bool) (r : Result ServerError (Option SessionState)) (s : Server)
      → SameSessions s (prepare_create os name force r s)
  unfolding prepare_create remove_dead_session
  prepare-SameSessions true r s = removed_if s.persistent s
  prepare-SameSessions false (err e) s = tt
  prepare-SameSessions false (ok (some state)) s = tt
  prepare-SameSessions false (ok none) s = refl

  -- The rest of the handler, behind the preparation.
  launched-Answers :
      (force : Bool) (s : Server) (r : Result ServerError Server)
      → is_some (find name s.sessions) ≡ false
      → prepare_create_dead_session os name force s ≡ r
      → SameSessions s r
      → Answers (w.others s.sessions) (handle_create os w name force s)
  unfolding handle_create
  launched-Answers force s (err e) free p same = rw (free, p, handle_create) tt
  launched-Answers force s (ok ready) free p same = elim (Option-cases w.starts) [
    | inl n ↦ rw (free, p, handle_create, n) tt
    | inr (session, n) ↦
        rw (free, p, handle_create, n)
          (subst
            (λ before.
              Answers (w.others before)
                (add_created (insert_session_or_existing name session (meanwhile w ready)) session))
            same (inserted-Answers session (meanwhile w ready)))
  ]

  create-Answers :
      (force : Bool) (s : Server) → Answers (w.others s.sessions) (handle_create os w name force s)
  unfolding handle_create prepare_create_dead_session prepare_create
  create-Answers force s = elim (Bool-cases (is_some (find name s.sessions))) [
    | inl taken ↦ rw taken tt
    | inr free ↦
        launched-Answers force s (prepare_create_dead_session os name force s) free refl
          (prepare-SameSessions force (read_dead_session os name s) s)
  ]

  answered :
      (before : List (Text × ℕ)) (a : Answer) (session : ℕ)
      → Answers before a
      → a.1 ≡ ok session
      → Registered session a.0 before
  answered before (s, ok got) session h e =
      let same : got ≡ session = cc in subst (λ r. Registered r s before) same h
  answered before (s, err x) session h e = cc

  -- A creation that answers with a session has entered it under the name, and at that moment, after
  -- whatever the other connections did meanwhile, no session had the name.
  pub create-Registered :
      (force : Bool) (s : Server) (session : ℕ)
      → (handle_create os w name force s).1 ≡ ok session
      → Registered session (handle_create os w name force s).0 (w.others s.sessions)
  create-Registered force s session e =
      answered (w.others s.sessions) (handle_create os w name force s) session
        (create-Answers force s) e
