-- ===== src/Daemon/Names/Examples.antt =====
-- Names that are drawn.
use hauntty.Prelude.{◌≡◌, refl, [], ◌∷◌, codes, length, suc}
use hauntty.Daemon.Names.{Draw, adjectives, nouns, generate_name, generate_unique_name}
use hauntty.Daemon.Names.Unique.{Free, generate_unique_name-Free}

abbrev first : Draw
first = record { adjective = 1; noun = 0 }

draws : generate_name first ≡ codes "hollow-drift"
unfolding generate_name adjectives nouns
draws = refl

generate_unique_name-Free_example : Free (codes "hollow-drift" ∷ []) (
    generate_unique_name
      (suc (length (codes "hollow-drift" ∷ [])))
      (λ i. first)
      (codes "hollow-drift" ∷ []))
generate_unique_name-Free_example =
    generate_unique_name-Free (λ i. first) (codes "hollow-drift" ∷ [])
