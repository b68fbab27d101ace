-- ===== src/Daemon/Server/Paths.antt =====
-- The file of a name: `filepath.Join(dir, name+".state")` of internal/daemon/persist.go, whose names are
-- not checked. A path is the list of its components, the last first, and `directory` is that of the
-- state directory, which is absolute. A file is named, without its suffix, by its entry in the directory
-- or, elsewhere, by its whole path, which has a slash (47).
use hauntty.Prelude.{
  ℕ, ◌≡◌, refl, Bool, true, false, ◌&&◌, ◌||◌, List, [], ◌∷◌, ◌++◌, Text, text_eq, text_eq_refl,
  codes, ◌==◌, if◌then◌else◌, Bool-cases, inl, inr, arith,
}

unfoldable pub has_slash : Text → Bool
has_slash [] = false
has_slash (b ∷ bs) = if b == 47 then true else has_slash bs

-- A byte before the first component.
abbrev pub prepend : ℕ → List Text → List Text
prepend b [] = (b ∷ []) ∷ []
prepend b (c ∷ cs) = (b ∷ c) ∷ cs

unfoldable pub components : Text → List Text
components [] = [] ∷ []
components (b ∷ bs) = let rest = components bs in if b == 47 then [] ∷ rest else prepend b rest

abbrev pub parent : List Text → List Text
parent [] = []
parent (c ∷ cs) = cs

-- What filepath.Clean makes of a component of a directory.
unfoldable pub enter : List Text → Text → List Text
unfolding text_eq
enter path c =
    if text_eq c [] || text_eq c (codes ".")
    then path
    else if text_eq c (codes "..")
    then parent path
    else c ∷ path

-- The last component has the suffix, and is kept.
unfoldable pub resolve : List Text → List Text → List Text
unfolding enter
resolve path [] = path
resolve path (c ∷ []) = c ∷ path
resolve path (c ∷ d ∷ cs) = resolve (enter path c) (d ∷ cs)

unfoldable pub same_path : List Text → List Text → Bool
unfolding text_eq
same_path [] [] = true
same_path [] (d ∷ ds) = false
same_path (c ∷ cs) [] = false
same_path (c ∷ cs) (d ∷ ds) = text_eq c d && same_path cs ds

unfoldable pub path_text : List Text → Text
path_text [] = []
path_text (c ∷ cs) = path_text cs ++ (47 ∷ c)

abbrev pub located : List Text → List Text → Text
located directory [] = []
located directory (file ∷ parents) =
    if same_path parents directory then file else path_text (file ∷ parents)

unfoldable pub state_file : List Text → Text → Text
unfolding components resolve same_path path_text
state_file directory name = located directory (resolve directory (components name))

components-plain : (name : Text) → has_slash name ≡ false → components name ≡ name ∷ []
unfolding has_slash components
components-plain [] h = refl
components-plain (b ∷ bs) h = elim (Bool-cases (b == 47)) [
  | inl e ↦ absurd (ground arith)
  | inr e ↦ rw (e, components-plain bs (ground arith)) refl
]

same_path_refl : (path : List Text) → same_path path path ≡ true
unfolding same_path
same_path_refl [] = refl
same_path_refl (c ∷ cs) = rw (text_eq_refl c, same_path_refl cs)

-- A name without a slash names its own file.
pub state_file-plain :
    (directory : List Text) (name : Text)
    → has_slash name ≡ false
    → state_file directory name ≡ name
unfolding state_file resolve
state_file-plain directory name h =
    rw (components-plain name h, resolve, same_path_refl directory) refl

-- Two names without a slash have two files.
pub state_file-apart :
    (directory : List Text) (name other : Text)
    → has_slash name ≡ false
    → has_slash other ≡ false
    → text_eq name other ≡ false
    → text_eq (state_file directory name) (state_file directory other) ≡ false
state_file-apart directory name other p q apart =
    rw (state_file-plain directory name p, state_file-plain directory other q) apart
