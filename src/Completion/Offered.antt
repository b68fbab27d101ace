-- ===== src/Completion/Offered.antt =====
-- The words that the completion of bash offers for the first argument.
use hauntty.Prelude.{
  ◌≡◌, refl, ◌∙◌, Bool, true, false, not, ◌&&◌, ◌||◌, Bool-cases, inl, inr, List, [], ◌∷◌, Option,
  none, some, Text, if◌then◌else◌,
}
use hauntty.Daemon.Names.{listed}
use hauntty.Daemon.Server.Unused.{listed-append}
use hauntty.Daemon.Persister.{sort}
use hauntty.Daemon.Persister.Saving.{listed-sort}
use hauntty.Completion.{KongNode, KongRoot, collect_commands, build_spec}
use hauntty.Completion.Render.{bash_commands}

-- A command of the tree that is not hidden has the name, or the alias.
unfoldable pub answers_to : Text → List (Option KongNode) → Bool
answers_to name [] = false
answers_to name (none ∷ children) = answers_to name children
answers_to name (some child ∷ children) =
    not child.hidden && listed name (child.name ∷ child.aliases) || answers_to name children

listed-nothing : (name : Text) → listed name [] ≡ false
unfolding listed
listed-nothing name = refl

either : (a b c : Bool) → b ≡ c → (if a then true else b) ≡ (a || c)
either true b c e = refl
either false b c e = e

listed-collect_commands :
    (name : Text) (topics : Text → Text) (children : List (Option KongNode))
    → listed name (bash_commands (collect_commands topics children)) ≡ answers_to name children
unfolding bash_commands collect_commands answers_to
listed-collect_commands name topics [] = listed-nothing name
listed-collect_commands name topics (none ∷ children) = listed-collect_commands name topics children
listed-collect_commands name topics (some child ∷ children) = elim (Bool-cases child.hidden) [
  | inl h ↦ rw h (listed-collect_commands name topics children)
  | inr h ↦ rw h (
      listed-append name (child.name ∷ child.aliases)
        (bash_commands (collect_commands topics children))
      ∙ either (listed name (child.name ∷ child.aliases)) _ _
          (listed-collect_commands name topics children))
]

-- The sorted words that the script of bash offers for the first argument are the names and aliases of
-- the commands that are not hidden, and no others.
pub listed-bash_commands :
    (name : Text) (topics : Text → Text) (root : KongRoot)
    → listed name (sort (bash_commands (build_spec (some root) topics).commands))
      ≡ answers_to name root.children
unfolding build_spec
listed-bash_commands name topics root =
    listed-sort name (bash_commands (collect_commands topics root.children))
    ∙ listed-collect_commands name topics root.children
