-- ===== src/Daemon/Requests/Saved.antt =====
-- The saved states behind the names of dead sessions.
use hauntty.Prelude.{
  text_eq_refl, ℕ, ◌≡◌, refl, sym, ap, subst, Bool-cases, inl, inr, true, false, ◌∙◌, List, [], ◌∷◌,
  Option, Option-cases, none, some, Text, Result, ok, err, All,
}
use hauntty.Daemon.Persist.{SessionState, decode_state}
use hauntty.Daemon.Server.{
  Server, Os, file_of, ServerError, bad_state, find, is_some, load_state, read_dead_session,
}
use hauntty.Daemon.Server.Handlers.{dead_names, dead_session_names}
use hauntty.Daemon.Server.Paths.{has_slash, state_file-plain}
use hauntty.Daemon.Server.Prune.{is_some-find_later}
use hauntty.Daemon.Requests.{Host}
use hauntty.Daemon.Requests.Inspect.{list_dead_names}

All-map : {P Q : Text → Type 0} → ((t : Text) → P t → Q t) → (ts : List Text) → All P ts → All Q ts
All-map f [] h = tt
All-map f (t ∷ ts) h = (f t h.0, All-map f ts h.1)

-- A state whose file is there is read, or fails to be.
abbrev pub Present : Result ServerError (Option SessionState) → Type 0
Present (err e) = Unit {0}
Present (ok none) = ⊥
Present (ok (some state)) = Unit {0}

load-Present :
    (os : Os) (name : Text) (s : Server)
    → is_some (find (file_of os name) s.files) ≡ true
    → Present (load_state os name s)
unfolding load_state
load-Present os name s there = elim (Option-cases (find (file_of os name) s.files)) [
  | inl e ↦ cc (there, ap is_some e)
  | inr (bytes, e) ↦ elim (Bool-cases (os.reads name)) [
    | inr r ↦ rw (e, load_state, r) tt
    | inl r ↦ rw (e, load_state, r) (decoded (decode_state bytes))
  ]
]
  where
    decoded :
        (r : Result _ SessionState)
        → Present (elim r [ ok state ↦ ok (some state) | err e ↦ err (bad_state e) ])
    decoded (ok state) = tt
    decoded (err e) = tt

read-Present :
    (os : Os) (name : Text) (s : Server)
    → s.persistent ≡ true
    → (has_slash name ≡ false) × (is_some (find name s.files) ≡ true)
    → Present (read_dead_session os name s)
unfolding read_dead_session
read-Present os name s p there = simp p (
    load-Present os name s (
      ap (λ key. is_some (find key s.files)) (state_file-plain os.directory name there.0)
      ∙ there.1))

-- The names of dead sessions are names of files.
dead_names-Present :
    (files : List (Text × List ℕ)) (sessions : List (Text × ℕ))
    → All
        (λ name. (has_slash name ≡ false) × (is_some (find name files) ≡ true))
        (dead_names files sessions)
unfolding dead_names find
dead_names-Present [] sessions = tt
dead_names-Present ((key, bytes) ∷ files) sessions =
    let later =
      All-map (λ name h. (h.0, is_some-find_later key name bytes files h.1))
        (dead_names files sessions) (dead_names-Present files sessions) in
    elim (Bool-cases (has_slash key)) [
      | inl f ↦ rw f later
      | inr f ↦ elim (Bool-cases (is_some (find key sessions))) [
        | inl e ↦ rw (f, e) later
        | inr e ↦ rw (f, e) ((f, rw (text_eq_refl key) refl), later)
      ]
    ]

dead_lem : (s : Server) → s.persistent ≡ true → dead_session_names s ≡ dead_names s.files s.sessions
unfolding dead_session_names
dead_lem s p = simp p

unfoldable pub AllPresent : Host → Server → List Text → Type 0
AllPresent h s names = All (λ name. Present (read_dead_session h.os name s)) names

dead-AllPresent :
    (h : Host) (s : Server) → s.persistent ≡ true → AllPresent h s (dead_session_names s)
unfolding AllPresent
dead-AllPresent h s p =
    subst (λ names. All (λ name. Present (read_dead_session h.os name s)) names)
      (sym (dead_lem s p))
      (All-map (λ name. read-Present h.os name s p) (dead_names s.files s.sessions)
        (dead_names-Present s.files s.sessions))

abbrev pub IfListed : Host → Server → Result ServerError (List Text) → Type 0
IfListed h s (err e) = Unit {0}
IfListed h s (ok names) = AllPresent h s names

pub listed-AllPresent : (h : Host) (s : Server) → IfListed h s (list_dead_names h s)
unfolding list_dead_names AllPresent
listed-AllPresent h s = elim (Bool-cases s.persistent) [
  | inr p ↦ simp p tt
  | inl p ↦ elim (Bool-cases h.outside.reads_directory) [
    | inl r ↦ simp (p, r) (dead-AllPresent h s p)
    | inr r ↦ simp (p, r) tt
  ]
]
