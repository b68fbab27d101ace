-- ===== src/Daemon/Lifetime/Keeping.antt =====
-- A saved state stays on the disk until something that may remove it asks for it.
use hauntty.Prelude.{
  ℕ, ◌≡◌, refl, ap, ◌∙◌, ◌⊎◌, Bool, Bool-cases, inl, inr, true, false, List, Option, Option-cases,
  none, some, Text, text_eq, Result, Result-cases, ok, err,
}
use hauntty.Daemon.Persist.{SessionState}
use hauntty.Daemon.Server.{
  Server, Os, file_of, ServerError, find, put, is_some, clean_state, remove_dead_session,
  read_dead_session, write_dead_session, prepare_create, prepare_create_dead_session,
  prepare_restore_dead_session, insert_session_or_existing, remove_session,
  rollback_restore_dead_session,
}
use hauntty.Daemon.Server.Handlers.{
  World, meanwhile, add_created, handle_create, attach_restored, commit_restore,
  handle_attach_restore,
}
use hauntty.Daemon.Server.Unforced.{unforced-files}
use hauntty.Daemon.Lifetime.Saves.{
  IsKept, KeptIfDone, erase-IsKept, write_state-KeptIfDone, save_all-IsKept, shutdown-IsKept,
  ended-IsKept,
}
use hauntty.Daemon.Lifetime.{
  Leaves, Step, Steps, creates, attaches, forces, restores, saves, ends, shuts_down, finished,
  after,
}

module _ (os : Os) (kept : Text) where
  module _ (name : Text) (apart : text_eq (file_of os name) (file_of os kept) ≡ false) where
    clean_state-KeptIfDone :
        (s : Server) → IsKept os kept s → KeptIfDone os kept (clean_state os name s)
    unfolding clean_state
    clean_state-KeptIfDone s h = elim (Option-cases (find (file_of os name) s.files)) [
      | inl e ↦ rw (e, clean_state) h
      | inr (bytes, e) ↦ elim (Bool-cases (os.removes name)) [
        | inl r ↦ rw (e, clean_state, r) (erase-IsKept os kept name s.files apart h)
        | inr r ↦ rw (e, clean_state, r) tt
      ]
    ]

    remove_dead-KeptIfDone :
        (s : Server) → IsKept os kept s → KeptIfDone os kept (remove_dead_session os name s)
    unfolding remove_dead_session
    remove_dead-KeptIfDone s h = elim (Bool-cases s.persistent) [
      | inl p ↦ simp p (clean_state-KeptIfDone s h)
      | inr p ↦ simp p h
    ]

    write_dead-KeptIfDone :
        (state : SessionState) (s : Server)
        → IsKept os kept s
        → KeptIfDone os kept (write_dead_session os name state s)
    unfolding write_dead_session
    write_dead-KeptIfDone state s h = elim (Bool-cases s.persistent) [
      | inl p ↦ simp p (write_state-KeptIfDone os kept name state s h)
      | inr p ↦ simp p h
    ]

    rollback-IsKept :
        (state : SessionState) (s : Server)
        → IsKept os kept s
        → IsKept os kept (rollback_restore_dead_session os name state s)
    unfolding rollback_restore_dead_session
    rollback-IsKept state s h =
        rolled_back (write_dead_session os name state s) refl (write_dead-KeptIfDone state s h)
      where
        rolled_back :
            (r : Result ServerError Server)
            → write_dead_session os name state s ≡ r
            → KeptIfDone os kept r
            → IsKept os kept (rollback_restore_dead_session os name state s)
        rolled_back (ok written) e done = rw (e, rollback_restore_dead_session) done
        rolled_back (err x) e done = rw (e, rollback_restore_dead_session) h

    attach_restored-IsKept :
        (w : World) (state : SessionState) (session : ℕ) (s : Server)
        → IsKept os kept s
        → IsKept os kept (attach_restored os w name state session s).0
    unfolding attach_restored
    attach_restored-IsKept w state session s h = elim (Bool-cases (w.attaches session)) [
      | inl a ↦ rw a h
      | inr a ↦ rw a (rollback-IsKept state (remove_session name s) h)
    ]

    commit-IsKept :
        (w : World) (state : SessionState) (session : ℕ) (s : Server) (o : Option ℕ)
        → IsKept os kept s
        → IsKept os kept (commit_restore os w name state session (s, o)).0
    unfolding commit_restore
    commit-IsKept w state session s (some existing) h = h
    commit-IsKept w state session s none h =
        committed (remove_dead_session os name s) refl (remove_dead-KeptIfDone s h)
      where
        committed :
            (r : Result ServerError Server)
            → remove_dead_session os name s ≡ r
            → KeptIfDone os kept r
            → IsKept os kept (commit_restore os w name state session (s, none)).0
        committed (ok gone) e done =
            rw (e, commit_restore) (attach_restored-IsKept w state session gone done)
        committed (err x) e done = rw (e, commit_restore) h

    inserted-IsKept :
        (w : World) (state : SessionState) (session : ℕ) (s : Server)
        → IsKept os kept s
        → IsKept os kept
            (commit_restore os w name state session (insert_session_or_existing name session s)).0
    unfolding insert_session_or_existing
    inserted-IsKept w state session s h = elim (Option-cases (find name s.sessions)) [
      | inl e ↦
          rw (e, insert_session_or_existing)
            (commit-IsKept w state session (record s { sessions = put name session s.sessions })
              none h)
      | inr (existing, e) ↦
          rw (e, insert_session_or_existing) (commit-IsKept w state session s (some existing) h)
    ]

    restore-IsKept :
        (w : World) (s : Server)
        → Leaves os kept w
        → IsKept os kept s
        → IsKept os kept (handle_attach_restore os w name s).0
    unfolding handle_attach_restore
    restore-IsKept w s leaves h = elim (Result-cases (prepare_restore_dead_session os name s)) [
      | inl (e, f) ↦ rw (f, handle_attach_restore) h
      | inr (state, f) ↦ elim (Option-cases (w.restores state)) [
        | inl n ↦ rw (f, handle_attach_restore, n) h
        | inr (session, n) ↦
            rw (f, handle_attach_restore, n)
              (inserted-IsKept w state session (meanwhile w s) (leaves s.files h))
      ]
    ]

    prepare-KeptIfDone :
        (force : Bool) (r : Result ServerError (Option SessionState)) (s : Server)
        → IsKept os kept s
        → KeptIfDone os kept (prepare_create os name force r s)
    unfolding prepare_create
    prepare-KeptIfDone true r s h = remove_dead-KeptIfDone s h
    prepare-KeptIfDone false (err e) s h = tt
    prepare-KeptIfDone false (ok none) s h = h
    prepare-KeptIfDone false (ok (some state)) s h = tt

    added-IsKept :
        (session : ℕ) (s : Server)
        → IsKept os kept s
        → IsKept os kept (add_created (insert_session_or_existing name session s) session).0
    unfolding insert_session_or_existing add_created
    added-IsKept session s h = elim (Option-cases (find name s.sessions)) [
      | inl e ↦ rw (e, insert_session_or_existing) h
      | inr (existing, e) ↦ rw (e, insert_session_or_existing) h
    ]

    launched-IsKept :
        (w : World) (force : Bool) (s : Server) (r : Result ServerError Server)
        → is_some (find name s.sessions) ≡ false
        → prepare_create_dead_session os name force s ≡ r
        → Leaves os kept w
        → IsKept os kept s
        → KeptIfDone os kept r
        → IsKept os kept (handle_create os w name force s).0
    unfolding handle_create
    launched-IsKept w force s (err e) free p leaves h done = rw (free, p, handle_create) h
    launched-IsKept w force s (ok ready) free p leaves h done = elim (Option-cases w.starts) [
      | inl n ↦ rw (free, p, handle_create, n) done
      | inr (session, n) ↦
          rw (free, p, handle_create, n)
            (added-IsKept session (meanwhile w ready) (leaves ready.files done))
    ]

    create-IsKept :
        (w : World) (force : Bool) (s : Server)
        → Leaves os kept w
        → IsKept os kept s
        → IsKept os kept (handle_create os w name force s).0
    unfolding handle_create prepare_create_dead_session
    create-IsKept w force s leaves h = elim (Bool-cases (is_some (find name s.sessions))) [
      | inl taken ↦ rw taken h
      | inr free ↦
          launched-IsKept w force s (prepare_create_dead_session os name force s) free refl leaves h
            (prepare-KeptIfDone force (read_dead_session os name s) s h)
    ]

  -- The files are as they were, or as the other connections left them.
  kept-either :
      (w : World) (s : Server) (files : List (Text × List ℕ))
      → Leaves os kept w
      → (files ≡ s.files) ⊎ (files ≡ w.other_files s.files)
      → IsKept os kept s
      → is_some (find (file_of os kept) files) ≡ true
  kept-either w s files leaves (inl same) h = ap (λ f. is_some (find (file_of os kept) f)) same ∙ h
  kept-either w s files leaves (inr same) h =
      ap (λ f. is_some (find (file_of os kept) f)) same ∙ leaves s.files h

  step-IsKept : {s t : Server} → Step os kept s t → IsKept os kept s → IsKept os kept t
  step-IsKept (creates w name s leaves) h =
      kept-either w s _ leaves (unforced-files os w name s).0 h
  step-IsKept (attaches w name s leaves) h =
      kept-either w s _ leaves (unforced-files os w name s).1 h
  step-IsKept (forces w name force s apart leaves) h = create-IsKept name apart w force s leaves h
  step-IsKept (restores w name s apart leaves) h = restore-IsKept name apart w s leaves h
  step-IsKept (saves p s) h = save_all-IsKept os kept p s h
  step-IsKept (ends p cancelled auto_exit name session s) h =
      ended-IsKept os kept p cancelled auto_exit name session s h
  step-IsKept (shuts_down p s) h = shutdown-IsKept os kept p s h

  -- A name that has a saved state has one after any sequence of creations, attaches, restores, saves,
  -- ends of sessions and shutdowns, whatever each of them ends in and whatever the calls of the system
  -- do, as long as none is a restore or a forced creation under a name with the same file, and what the
  -- other connections do while a session starts does not remove that file; no prune is among the steps.
  pub steps-IsKept : {s t : Server} → Steps os kept s t → IsKept os kept s → IsKept os kept t
  steps-IsKept finished h = h
  steps-IsKept (after step rest) h = steps-IsKept rest (step-IsKept step h)
