-- ===== src/Daemon/Server/Unforced.antt =====
-- Only a forced creation and a restore touch the saved states.
use hauntty.Prelude.{
  ℕ, ◌≡◌, refl, ◌∙◌, Bool, false, Option, Option-cases, none, some, Text, Result, ok, err,
  Bool-cases, inl, inr, ◌⊎◌,
}
use hauntty.Daemon.Persist.{SessionState}
use hauntty.Daemon.Server.{
  Server, Os, ServerError, dead_state_exists, find, is_some, read_dead_session, prepare_create,
  prepare_create_dead_session, insert_session_or_existing,
}
use hauntty.Daemon.Server.Handlers.{
  World, meanwhile, add_created, handle_create, attach_started, attach_new, handle_attach,
}

inserted-files :
    (name : Text) (session : ℕ) (s : Server)
    → (insert_session_or_existing name session s).0.files ≡ s.files
unfolding insert_session_or_existing
inserted-files name session s = elim (Option-cases (find name s.sessions)) [
  | inl e ↦ rw (e, insert_session_or_existing)
  | inr (existing, e) ↦ rw (e, insert_session_or_existing)
]

added-files : (p : Server × Option ℕ) (session : ℕ) → (add_created p session).0.files ≡ p.0.files
unfolding add_created
added-files (s, none) session = refl
added-files (s, some existing) session = refl

started-files :
    (w : World) (name : Text) (p : Server × Option ℕ) (session : ℕ)
    → (attach_started w name p session).0.files ≡ p.0.files
unfolding attach_started
started-files w name (s, none) session = elim (Bool-cases (w.attaches session)) [
  | inl e ↦ rw e
  | inr e ↦ rw e
]
started-files w name (s, some existing) session = refl

abbrev pub Untouched : World → Server → Server → Type 0
Untouched w s t = (t.files ≡ s.files) ⊎ (t.files ≡ w.other_files s.files)

attach_new-files :
    (w : World) (name : Text) (r : Result ServerError (Option SessionState)) (s : Server)
    → Untouched w s (attach_new w name r s).0
unfolding attach_new
attach_new-files w name (err e) s = inl refl
attach_new-files w name (ok (some state)) s = inl refl
attach_new-files w name (ok none) s = elim (Option-cases w.starts) [
  | inl e ↦ rw (e, attach_new) (inl refl)
  | inr (session, e) ↦
      rw (e, attach_new)
        (inr (
          started-files w name (insert_session_or_existing name session (meanwhile w s)) session
          ∙ inserted-files name session (meanwhile w s)))
]

unforced :
    (os : Os) (name : Text) (r : Result ServerError (Option SessionState)) (s : Server)
    → (prepare_create os name false r s ≡ ok s)
      ⊎ ((e : ServerError) × (prepare_create os name false r s ≡ err e))
unfolding prepare_create
unforced os name (err e) s = inr (e, refl)
unforced os name (ok (some state)) s = inr (dead_state_exists, refl)
unforced os name (ok none) s = inl refl

prepared_lem :
    (os : Os) (name : Text) (force : Bool) (s : Server)
    → prepare_create_dead_session os name force s
      ≡ prepare_create os name force (read_dead_session os name s) s
unfolding prepare_create_dead_session
prepared_lem os name force s = refl

create-files :
    (os : Os) (w : World) (name : Text) (s : Server)
    → Untouched w s (handle_create os w name false s).0
unfolding handle_create
create-files os w name s = elim (Bool-cases (is_some (find name s.sessions))) [
  | inl taken ↦ rw taken (inl refl)
  | inr free ↦ elim (unforced os name (read_dead_session os name s) s) [
    | inr (e, r) ↦ rw (free, prepared_lem os name false s, r, handle_create) (inl refl)
    | inl r ↦ elim (Option-cases w.starts) [
      | inl n ↦ rw (free, prepared_lem os name false s, r, handle_create, n) (inl refl)
      | inr (session, n) ↦
          rw (free, prepared_lem os name false s, r, handle_create, n)
            (inr (
              added-files (insert_session_or_existing name session (meanwhile w s)) session
              ∙ inserted-files name session (meanwhile w s)))
    ]
  ]
]

-- Neither the creation of a session without force nor an attach that does not restore changes a saved
-- state, whatever it ends in: the files are as they were, or as the other connections left them.
pub unforced-files :
    (os : Os) (w : World) (name : Text) (s : Server)
    → Untouched w s (handle_create os w name false s).0
      × Untouched w s (handle_attach os w name s).0
unfolding handle_attach
unforced-files os w name s = (
  create-files os w name s,
  elim (Option-cases (find name s.sessions)) [
    | inl e ↦ rw (e, handle_attach) (attach_new-files w name (read_dead_session os name s) s)
    | inr (existing, e) ↦ rw (e, handle_attach) (inl refl)
  ],
)
