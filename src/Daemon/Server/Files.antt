-- ===== src/Daemon/Server/Files.antt =====
-- A map after a change of one name.
use hauntty.Prelude.{
  ◌≡◌, refl, ◌∙◌, false, List, [], ◌∷◌, none, some, Text, text_eq, text_eq_refl, text_eq→eq,
  Bool-cases, inl, inr, ap,
}
use hauntty.Daemon.Server.{find, erase, put}

module _ {A : Type 0} where
  pub find-erase : (name : Text) (entries : List (Text × A)) → find name (erase name entries) ≡ none
  unfolding find erase
  find-erase name [] = refl
  find-erase name ((key, value) ∷ entries) = elim (Bool-cases (text_eq key name)) [
    | inl e ↦ rw e (find-erase name entries)
    | inr e ↦ rw (e, e) (find-erase name entries)
  ]

  pub find-erase_other :
      (name other : Text) (entries : List (Text × A))
      → text_eq name other ≡ false
      → find other (erase name entries) ≡ find other entries
  unfolding find erase
  find-erase_other name other [] h = refl
  find-erase_other name other ((key, value) ∷ entries) h = elim (Bool-cases (text_eq key name)) [
    | inl e ↦
        let apart : text_eq key other ≡ false =
          ap (λ k. text_eq k other) (text_eq→eq key name e) ∙ h in
        rw (e, apart) (find-erase_other name other entries h)
    | inr e ↦ elim (Bool-cases (text_eq key other)) [
      | inl f ↦ rw (e, f)
      | inr f ↦ rw (e, f) (find-erase_other name other entries h)
    ]
  ]

  pub find-put :
      (name : Text) (value : A) (entries : List (Text × A))
      → find name (put name value entries) ≡ some value
  unfolding find
  find-put name value entries = rw (text_eq_refl name)

  pub find-put_other :
      (name other : Text) (value : A) (entries : List (Text × A))
      → text_eq name other ≡ false
      → find other (put name value entries) ≡ find other entries
  unfolding find
  find-put_other name other value entries h = rw h (find-erase_other name other entries h)
