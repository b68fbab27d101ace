-- ===== src/Daemon/Persister/Saving.antt =====
-- One session that cannot be saved does not keep the others from being saved.
use hauntty.Prelude.{
  ℕ, ◌≡◌, refl, sym, ap, ◌∙◌, subst, Bool, Bool-cases, inl, inr, true, false, All, List, [], ◌∷◌,
  Option, Option-cases, none, some, Text, text_eq, text_eq_refl, text_eq→eq, if◌then◌else◌, Result,
  Result-cases, ok, err,
}
use hauntty.Daemon.Persist.{SessionState, PersistError, encode_state}
use hauntty.Daemon.Names.{listed}
use hauntty.Daemon.Server.{
  Server, Os, file_of, ServerError, io_failed, bad_state, find, put, is_some, write_state,
}
use hauntty.Daemon.Server.Paths.{has_slash, state_file-apart}
use hauntty.Daemon.Server.Files.{find-put, find-put_other}
use hauntty.Daemon.Server.Unused.{listed-map}
use hauntty.Daemon.Persister.{
  Saver, state_to_save, save_session, text_le, insert_sorted, sort, Saved, after_save, save_names,
  names_of, save_all,
}

listed-insert_sorted :
    (name n : Text) (names : List Text)
    → listed name (insert_sorted n names) ≡ listed name (n ∷ names)
unfolding listed insert_sorted
listed-insert_sorted name n [] = refl
listed-insert_sorted name n (m ∷ names) = elim (Bool-cases (text_le n m)) [
  | inl e ↦ rw e refl
  | inr e ↦ rw e (
      ap (λ b. if text_eq m name then true else b) (listed-insert_sorted name n names)
      ∙ swap (text_eq m name) (text_eq n name) (listed name names))
]
  where
    swap :
        (a b c : Bool)
        → (if a then true else if b then true else c) ≡ (if b then true else if a then true else c)
    swap true true c = refl
    swap true false c = refl
    swap false true c = refl
    swap false false c = refl

pub listed-sort : (name : Text) (names : List Text) → listed name (sort names) ≡ listed name names
unfolding listed sort
listed-sort name [] = refl
listed-sort name (n ∷ names) =
    listed-insert_sorted name n (sort names)
    ∙ ap (λ b. if text_eq n name then true else b) (listed-sort name names)

module _ (p : Saver) (os : Os) where
  -- The bytes that a session's file gets, or the error.
  abbrev writable : Text → Result PersistError (List ℕ) → Result ServerError (List ℕ)
  writable name (err e) = err (bad_state e)
  writable name (ok bytes) = if os.writes name then ok bytes else err io_failed

  abbrev encoded : Text → Result ServerError SessionState → Result ServerError (List ℕ)
  encoded name (err e) = err e
  encoded name (ok state) = writable name (encode_state state)

  abbrev pub saved_bytes : Text → ℕ → Result ServerError (List ℕ)
  saved_bytes name session = encoded name (state_to_save p session)

  abbrev pub stored : Text → Server → Result ServerError (List ℕ) → Result ServerError Server
  stored name s (err e) = err e
  stored name s (ok bytes) = ok (record s { files = put (file_of os name) bytes s.files })

  write_with :
      (name : Text) (state : SessionState) (s : Server) (r : Result PersistError (List ℕ))
      → encode_state state ≡ r
      → write_state os name state s ≡ stored name s (writable name r)
  unfolding write_state
  write_with name state s (err e) f = rw (f, write_state)
  write_with name state s (ok bytes) f = elim (Bool-cases (os.writes name)) [
    | inl r ↦ rw (f, write_state, r) refl
    | inr r ↦ rw (f, write_state, r) refl
  ]

  pub save_session_lem :
      (name : Text) (session : ℕ) (s : Server)
      → save_session p os name session s ≡ stored name s (saved_bytes name session)
  unfolding save_session
  save_session_lem name session s = elim (Result-cases (state_to_save p session)) [
    | inl (e, f) ↦ rw (f, save_session)
    | inr (state, f) ↦ rw (f, save_session) (write_with name state s (encode_state state) refl)
  ]

  -- The file of a session behind a save, by what it was.
  abbrev pub saved_file : Result ServerError (List ℕ) → Option (List ℕ) → Option (List ℕ)
  saved_file (ok bytes) old = some bytes
  saved_file (err e) old = old

  find-stored :
      (name other : Text) (session : ℕ) (s : Server) (r : Result ServerError (List ℕ))
      (rest : Server → Saved)
      → text_eq (file_of os name) (file_of os other) ≡ false
      → (saved : Server) × ((after_save rest name s (stored name s r)).0 ≡ (rest saved).0)
        × (find (file_of os other) saved.files ≡ find (file_of os other) s.files)
  find-stored name other session s (err e) rest apart = (s, refl, refl)
  find-stored name other session s (ok bytes) rest apart = (
    record s { files = put (file_of os name) bytes s.files },
    refl,
    find-put_other (file_of os name) (file_of os other) bytes s.files apart,
  )

  find-stored_same :
      (name : Text) (s : Server) (r : Result ServerError (List ℕ)) (rest : Server → Saved)
      → (saved : Server) × ((after_save rest name s (stored name s r)).0 ≡ (rest saved).0)
        × (find (file_of os name) saved.files ≡ saved_file r (find (file_of os name) s.files))
  find-stored_same name s (err e) rest = (s, refl, refl)
  find-stored_same name s (ok bytes) rest = (
    record s { files = put (file_of os name) bytes s.files },
    refl,
    find-put (file_of os name) bytes s.files,
  )

  saved_file-twice :
      (b : Bool) (r : Result ServerError (List ℕ)) (old : Option (List ℕ))
      → (if b then saved_file r (saved_file r old) else saved_file r old) ≡ saved_file r old
  saved_file-twice true (ok bytes) old = refl
  saved_file-twice true (err e) old = refl
  saved_file-twice false r old = refl

  -- No session has a name with a slash.
  abbrev pub ArePlain : List (Text × ℕ) → Type 0
  ArePlain sessions = All (λ (entry : Text × ℕ). has_slash entry.0 ≡ false) sessions

  has_slash-find :
      (name : Text) (sessions : List (Text × ℕ)) (session : ℕ)
      → ArePlain sessions
      → find name sessions ≡ some session
      → has_slash name ≡ false
  unfolding find
  has_slash-find name [] session h e = cc
  has_slash-find name ((key, value) ∷ entries) session h e = elim (Bool-cases (text_eq key name)) [
    | inl f ↦ ap has_slash (sym (text_eq→eq key name f)) ∙ h.0
    | inr f ↦
        has_slash-find name entries session h.1
          (sym (ap (λ b. if b then some value else find name entries) f) ∙ e)
  ]

  module _ (sessions : List (Text × ℕ)) (name : Text) (session : ℕ)
      (there : find name sessions ≡ some session) (plain : ArePlain sessions) where
    abbrev file_behind : List Text → Server → Option (List ℕ)
    file_behind names s =
        if listed name names
        then saved_file (saved_bytes name session) (find (file_of os name) s.files)
        else find (file_of os name) s.files

    step_lem :
        (n : Text) (names : List Text) (s : Server) (got : ℕ)
        → find n sessions ≡ some got
        → save_names p os sessions (n ∷ names) s
          ≡ after_save (save_names p os sessions names) n s (stored n s (saved_bytes n got))
    unfolding save_names
    step_lem n names s got e =
        rw (e, save_names)
          (ap (after_save (save_names p os sessions names) n s) (save_session_lem n got s))

    skip_lem :
        (n : Text) (names : List Text) (s : Server)
        → find n sessions ≡ none
        → save_names p os sessions (n ∷ names) s ≡ save_names p os sessions names s
    unfolding save_names
    skip_lem n names s e = rw (e, save_names)

    Found : List Text → Server → Type 0
    Found names s =
        find (file_of os name) (save_names p os sessions names s).0.files ≡ file_behind names s

    Found-head :
        (names : List Text) (s : Server) → ((v : Server) → Found names v) → Found (name ∷ names) s
    unfolding Found listed
    Found-head names s hyp =
        let (saved, f, g) =
          find-stored_same name s (saved_bytes name session) (save_names p os sessions names) in
        rw (text_eq_refl name) (
          ap (λ r. find (file_of os name) r.0.files) (step_lem name names s session there)
          ∙ (ap (λ v. find (file_of os name) v.files) f
              ∙ (hyp saved
                  ∙ (ap
                        (λ o.
                          if listed name names then saved_file (saved_bytes name session) o else o)
                        g
                      ∙ saved_file-twice (listed name names) (saved_bytes name session)
                          (find (file_of os name) s.files)))))

    Found-other :
        (n : Text) (names : List Text) (s : Server)
        → text_eq n name ≡ false
        → ((v : Server) → Found names v)
        → Found (n ∷ names) s
    unfolding Found listed
    Found-other n names s apart hyp = elim (Option-cases (find n sessions)) [
      | inl e ↦ rw apart (ap (λ r. find (file_of os name) r.0.files) (skip_lem n names s e) ∙ hyp s)
      | inr (got, e) ↦
          let (saved, f, g) =
            find-stored n name got s (saved_bytes n got) (save_names p os sessions names) (
              state_file-apart os.directory n name (has_slash-find n sessions got plain e)
                (has_slash-find name sessions session plain there) apart) in
          rw apart (
            ap (λ r. find (file_of os name) r.0.files) (step_lem n names s got e)
            ∙ (ap (λ v. find (file_of os name) v.files) f
                ∙ (hyp saved
                    ∙ ap
                        (λ o.
                          if listed name names then saved_file (saved_bytes name session) o else o)
                        g)))
    ]

    save_names-Found : (names : List Text) (s : Server) → Found names s
    unfolding Found listed save_names
    save_names-Found [] s = refl
    save_names-Found (n ∷ names) s = elim (Bool-cases (text_eq n name)) [
      | inl e ↦
          subst (λ k. Found (k ∷ names) s) (sym (text_eq→eq n name e))
            (Found-head names s (save_names-Found names))
      | inr e ↦ Found-other n names s e (save_names-Found names)
    ]

  found_lem :
      (sessions : List (Text × ℕ)) (name : Text) (session : ℕ)
      (there : find name sessions ≡ some session) (plain : ArePlain sessions) (names : List Text)
      (s : Server)
      → find (file_of os name) (save_names p os sessions names s).0.files
        ≡ file_behind sessions name session there plain names s
  unfolding Found
  found_lem sessions name session there plain names s =
      save_names-Found sessions name session there plain names s

  -- If no session has a name with a slash: after a save of all sessions the file of each session is what
  -- its own save has written, or, if its own save fails, what it was before; the failures of the others
  -- do not matter.
  pub save_all-saved_file :
      (s : Server) (name : Text) (session : ℕ)
      → ArePlain s.sessions
      → find name s.sessions ≡ some session
      → find (file_of os name) (save_all p os s).0.files
        ≡ saved_file (saved_bytes name session) (find (file_of os name) s.files)
  unfolding save_all
  save_all-saved_file s name session plain there =
      let named : listed name (sort (names_of s.sessions)) ≡ true =
        listed-sort name (names_of s.sessions) ∙ (listed-map name s.sessions ∙ ap is_some there) in
      found_lem s.sessions name session there plain (sort (names_of s.sessions)) s
      ∙ ap
          (λ b.
            if b
            then saved_file (saved_bytes name session) (find (file_of os name) s.files)
            else find (file_of os name) s.files)
          named
