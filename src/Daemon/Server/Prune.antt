-- ===== src/Daemon/Server/Prune.antt =====
-- Pruning removes the saved states that no running session has, and no other.
use hauntty.Prelude.{
  ℕ, ◌≡◌, refl, ◌∙◌, ap, Bool, true, false, not, ◌&&◌, ◌||◌, List, [], ◌∷◌, Text, text_eq,
  text_eq→eq, Bool-cases, inl, inr,
}
use hauntty.Daemon.Names.{listed}
use hauntty.Daemon.Server.{Server, find, erase, is_some}
use hauntty.Daemon.Server.Paths.{has_slash}
use hauntty.Daemon.Server.Handlers.{dead_names}

erase_all : {A : Type 0} → List Text → List (Text × A) → List (Text × A)
erase_all [] entries = entries
erase_all (name ∷ names) entries = erase_all names (erase name entries)

and-false : (b : Bool) → (b && false) ≡ false
and-false true = refl
and-false false = refl

-- The listing passes over a file of the name.
abbrev passed : Text → List (Text × ℕ) → Bool
passed name sessions = has_slash name || is_some (find name sessions)

pub listed-dead_names :
    (name : Text) (files : List (Text × List ℕ)) (sessions : List (Text × ℕ))
    → listed name (dead_names files sessions)
      ≡ (is_some (find name files) && not (has_slash name || is_some (find name sessions)))
unfolding listed dead_names find
listed-dead_names name [] sessions = refl
listed-dead_names name ((key, bytes) ∷ files) sessions = elim (Bool-cases (text_eq key name)) [
  | inl e ↦
      let alike : passed key sessions ≡ passed name sessions =
        ap (λ k. passed k sessions) (text_eq→eq key name e) in
      elim (Bool-cases (passed name sessions)) [
        | inl r ↦
            rw (alike, r, e)
              (listed-dead_names name files sessions
                ∙ (ap (λ b. is_some (find name files) && not b) r
                    ∙ and-false (is_some (find name files))))
        | inr r ↦ rw (alike, r, e)
      ]
  | inr e ↦ elim (Bool-cases (passed key sessions)) [
    | inl r ↦ rw (e, r) (listed-dead_names name files sessions)
    | inr r ↦ rw (e, r, e) (listed-dead_names name files sessions)
  ]
]

pub is_some-find_later :
    (key name : Text) (bytes : List ℕ) (files : List (Text × List ℕ))
    → is_some (find name files) ≡ true
    → is_some (find name ((key, bytes) ∷ files)) ≡ true
unfolding find
is_some-find_later key name bytes files there = elim (Bool-cases (text_eq key name)) [
  | inl e ↦ rw e
  | inr e ↦ rw e there
]
