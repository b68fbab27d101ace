-- ===== src/Daemon/Server/Unused.antt =====
-- A name that no session has, and the reservation that finds one.
use hauntty.Prelude.{
  ◌≡◌, refl, sym, ◌∙◌, ap, Bool, Bool-cases, inl, inr, true, false, not, ◌&&◌, ◌||◌, List, [], ◌∷◌,
  ◌++◌, map, Option, none, some, Text, text_eq, if◌then◌else◌, ok,
}
use hauntty.Daemon.Names.{listed}
use hauntty.Daemon.Names.Unique.{Free, generate_unique_name-Free}
use hauntty.Daemon.Names.Plain.{has_slash-generate_unique_name}
use hauntty.Daemon.Server.Paths.{has_slash, state_file-plain}
use hauntty.Daemon.Server.{
  Server, Os, file_of, find, is_some, clean_state, load_state, read_dead_session,
  remove_dead_session, prepare_create, prepare_create_dead_session,
}
use hauntty.Daemon.Server.Handlers.{dead_names, dead_session_names}
use hauntty.Daemon.Server.Prune.{listed-dead_names}
use hauntty.Daemon.Server.Reserve.{
  Outside, live_session_names, reserved_names, reserve_among, reserve_session_name,
}

pub listed-map :
    {A : Type 0} (name : Text) (entries : List (Text × A))
    → listed name (map (λ (entry : Text × A). entry.0) entries) ≡ is_some (find name entries)
unfolding listed find
listed-map name [] = refl
listed-map name ((key, value) ∷ entries) = elim (Bool-cases (text_eq key name)) [
  | inl e ↦ rw e
  | inr e ↦ rw e (listed-map name entries)
]

pub listed-append :
    (name : Text) (xs ys : List Text)
    → listed name (xs ++ ys) ≡ (if listed name xs then true else listed name ys)
unfolding listed
listed-append name [] ys = refl
listed-append name (x ∷ xs) ys = elim (Bool-cases (text_eq x name)) [
  | inl e ↦ rw e
  | inr e ↦ rw e (listed-append name xs ys)
]

none-of-is_some : {A : Type 0} (o : Option A) → is_some o ≡ false → o ≡ none
none-of-is_some none h = refl
none-of-is_some (some a) h = cc

-- No session has the name, running or, with persistence, saved, and its file is that of the state
-- directory with the name.
pub record Unused (name : Text) (s : Server) : Type 0 where
  pub plain : has_slash name ≡ false
  pub not_running : find name s.sessions ≡ none
  pub not_saved : s.persistent ≡ true → find name s.files ≡ none

both_free :
    (live dead : Bool) → (if live then true else dead) ≡ false → (live ≡ false) × (dead ≡ false)
both_free true dead h = cc
both_free false dead h = (refl, h)

and_left : (a b : Bool) → (a && not b) ≡ false → b ≡ false → a ≡ false
and_left true b h e = cc (h, ap not e)
and_left false b h e = refl

live-Unused :
    (name : Text) (s : Server)
    → has_slash name ≡ false
    → s.persistent ≡ false
    → listed name (live_session_names s) ≡ false
    → Unused name s
live-Unused name s plain p h = record {
  plain = plain;
  not_running = none-of-is_some _ (sym (listed-map name s.sessions) ∙ h);
  not_saved = λ q. cc (p, q);
}

dead_lem : (s : Server) → s.persistent ≡ true → dead_session_names s ≡ dead_names s.files s.sessions
unfolding dead_session_names
dead_lem s p = simp p

all-Unused :
    (name : Text) (s : Server)
    → has_slash name ≡ false
    → s.persistent ≡ true
    → listed name (live_session_names s ++ dead_session_names s) ≡ false
    → Unused name s
all-Unused name s plain p h =
    let free =
      both_free (listed name (live_session_names s)) (listed name (dead_session_names s))
        (sym (listed-append name (live_session_names s) (dead_session_names s)) ∙ h) in
    let idle : is_some (find name s.sessions) ≡ false = sym (listed-map name s.sessions) ∙ free.0 in
    let dead : (is_some (find name s.files) && not (is_some (find name s.sessions))) ≡ false =
      sym (ap (λ b. is_some (find name s.files) && not (b || is_some (find name s.sessions))) plain)
      ∙ (sym (listed-dead_names name s.files s.sessions)
          ∙ (ap (listed name) (sym (dead_lem s p)) ∙ free.1)) in
    record {
      plain = plain;
      not_running = none-of-is_some _ idle;
      not_saved = λ q. none-of-is_some _ (and_left _ _ dead idle);
    }

reserved_all :
    (o : Outside) (s : Server)
    → s.persistent ≡ true
    → o.reads_directory ≡ true
    → reserved_names o s ≡ ok (live_session_names s ++ dead_session_names s)
unfolding reserved_names
reserved_all o s p r = simp (p, r)

reserved_live :
    (o : Outside) (s : Server)
    → s.persistent ≡ false
    → reserved_names o s ≡ ok (live_session_names s)
unfolding reserved_names
reserved_live o s p = simp p

-- A name is reserved, and it is unused.
abbrev pub Reserved : Outside → Server → Type 0
Reserved o s = (name : Text) × (reserve_session_name o [] s ≡ ok (some name)) × Unused name s

pub reserve-Reserved :
    (o : Outside) (s : Server) → (s.persistent ≡ true → o.reads_directory ≡ true) → Reserved o s
unfolding reserve_session_name
reserve-Reserved o s readable = elim (Bool-cases s.persistent) [
  | inl p ↦
      let names : reserved_names o s ≡ ok (live_session_names s ++ dead_session_names s) =
        reserved_all o s p (readable p) in
      let found : Free (live_session_names s ++ dead_session_names s) _ =
        generate_unique_name-Free o.draws (live_session_names s ++ dead_session_names s) in
      (
        found.0,
        ap (reserve_among o) names ∙ ap ok found.1,
        all-Unused found.0 s (has_slash-generate_unique_name _ o.draws _ found.0 found.1) p found.2,
      )
  | inr p ↦
      let found : Free (live_session_names s) _ =
        generate_unique_name-Free o.draws (live_session_names s) in
      (
        found.0,
        ap (reserve_among o) (reserved_live o s p) ∙ ap ok found.1,
        live-Unused found.0 s (has_slash-generate_unique_name _ o.draws _ found.0 found.1) p
            found.2,
      )
]

absent-load :
    (os : Os) (name : Text) (s : Server)
    → find (file_of os name) s.files ≡ none
    → load_state os name s ≡ ok none
unfolding load_state
absent-load os name s h = rw (h, load_state)

Unused-file :
    (os : Os) (name : Text) (s : Server)
    → Unused name s
    → s.persistent ≡ true
    → find (file_of os name) s.files ≡ none
Unused-file os name s u p =
    ap (λ key. find key s.files) (state_file-plain os.directory name u.plain) ∙ u.not_saved p

pub Unused-read_dead_session :
    (os : Os) (name : Text) (s : Server) → Unused name s → read_dead_session os name s ≡ ok none
unfolding read_dead_session
Unused-read_dead_session os name s u = elim (Bool-cases s.persistent) [
  | inl p ↦ simp (p, absent-load os name s (Unused-file os name s u p))
  | inr p ↦ simp p
]

absent-clean :
    (os : Os) (name : Text) (s : Server)
    → find (file_of os name) s.files ≡ none
    → clean_state os name s ≡ ok s
unfolding clean_state
absent-clean os name s h = rw (h, clean_state)

Unused-remove_dead_session :
    (os : Os) (name : Text) (s : Server) → Unused name s → remove_dead_session os name s ≡ ok s
unfolding remove_dead_session
Unused-remove_dead_session os name s u = elim (Bool-cases s.persistent) [
  | inl p ↦ simp (p, absent-clean os name s (Unused-file os name s u p))
  | inr p ↦ simp p
]

pub Unused-prepare_create :
    (os : Os) (name : Text) (force : Bool) (s : Server)
    → Unused name s
    → prepare_create_dead_session os name force s ≡ ok s
unfolding prepare_create_dead_session prepare_create
Unused-prepare_create os name true s u = Unused-remove_dead_session os name s u
Unused-prepare_create os name false s u =
    ap (λ r. prepare_create os name false r s) (Unused-read_dead_session os name s u)
