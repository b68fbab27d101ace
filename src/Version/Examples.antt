-- ===== src/Version/Examples.antt =====
-- A build of a modified tree.
use hauntty.Prelude.{◌≡◌, refl, [], ◌∷◌, none, some, text_eq, codes}
use hauntty.Version.{BuildSettings, read_settings, version}

abbrev modified : BuildSettings
modified =
    (codes "vcs", codes "git")
    ∷ (codes "vcs.revision", codes "0123456789abcdef")
    ∷ (codes "vcs.modified", codes "true")
    ∷ []

modified_tree : version (some modified) ≡ codes "0123456789ab-dirty"
unfolding version read_settings text_eq
modified_tree = refl

no_settings : version (some []) ≡ version none
unfolding version read_settings
no_settings = refl
