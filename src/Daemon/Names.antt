-- ===== src/Daemon/Names.antt =====
-- The names of sessions that have no name yet: internal/daemon/namegen.go. `rand.IntN` is a parameter, the
-- draws in their order.
pub mod Unique
pub mod Plain
mod Examples
use hauntty.Prelude.{
  ℕ, zero, suc, ◌+◌, Bool, true, false, List, [], ◌∷◌, ◌++◌, Option, none, some, Text, codes,
  text_eq, if◌then◌else◌,
}
use hauntty.Daemon.Session.Decimal.{decimal}

unfoldable pub adjectives : List Text
adjectives =
    codes "phantom"
    ∷ codes "hollow"
    ∷ codes "silver"
    ∷ codes "shadow"
    ∷ codes "spectral"
    ∷ codes "ghostly"
    ∷ codes "ethereal"
    ∷ codes "haunted"
    ∷ codes "mystic"
    ∷ codes "twilight"
    ∷ codes "silent"
    ∷ codes "fading"
    ∷ codes "ancient"
    ∷ codes "cursed"
    ∷ codes "forgotten"
    ∷ codes "pale"
    ∷ codes "dark"
    ∷ codes "eerie"
    ∷ codes "somber"
    ∷ codes "shrouded"
    ∷ codes "veiled"
    ∷ codes "grim"
    ∷ codes "dusk"
    ∷ codes "frost"
    ∷ codes "ashen"
    ∷ codes "waning"
    ∷ codes "void"
    ∷ codes "deep"
    ∷ codes "lost"
    ∷ codes "still"
    ∷ []

unfoldable pub nouns : List Text
nouns =
    codes "drift"
    ∷ codes "echo"
    ∷ codes "mist"
    ∷ codes "shade"
    ∷ codes "whisper"
    ∷ codes "wraith"
    ∷ codes "specter"
    ∷ codes "haunt"
    ∷ codes "gloom"
    ∷ codes "crypt"
    ∷ codes "tomb"
    ∷ codes "veil"
    ∷ codes "fog"
    ∷ codes "dusk"
    ∷ codes "ember"
    ∷ codes "ash"
    ∷ codes "bone"
    ∷ codes "rune"
    ∷ codes "ward"
    ∷ codes "gate"
    ∷ codes "marsh"
    ∷ codes "moor"
    ∷ codes "vale"
    ∷ codes "rift"
    ∷ codes "cairn"
    ∷ codes "peak"
    ∷ codes "keep"
    ∷ codes "den"
    ∷ codes "maze"
    ∷ codes "well"
    ∷ []

-- Two results of rand.IntN.
pub record Draw : Type 0 where
  pub adjective : ℕ
  pub noun : ℕ

-- An item of a slice; rand.IntN stays below its length.
unfoldable pub word : ℕ → List Text → Text
word i [] = []
word zero (w ∷ ws) = w
word (suc i) (w ∷ ws) = word i ws

-- A Go map that is used as a set: `existing[name]`.
unfoldable pub listed : Text → List Text → Bool
listed name [] = false
listed name (n ∷ names) = if text_eq n name then true else listed name names

abbrev pub dashed : Text → Text → Text
dashed adj noun = adj ++ (codes "-" ++ noun)

unfoldable pub generate_name : Draw → Text
unfolding word
generate_name d = dashed (word d.adjective adjectives) (word d.noun nouns)

-- The first loop, of which 100 rounds are run; `draws i` is the draw of round i.
unfoldable pub draw_names : ℕ → ℕ → (ℕ → Draw) → List Text → Option Text
draw_names zero i draws existing = none
draw_names (suc rounds) i draws existing = elim (listed (generate_name (draws i)) existing) [
  | true ↦ draw_names rounds (i + 1) draws existing
  | false ↦ some (generate_name (draws i))
]

unfoldable pub pair_noun : Text → List Text → List Text → Option Text
pair_noun adj [] existing = none
pair_noun adj (noun ∷ rest) existing = elim (listed (dashed adj noun) existing) [
  | true ↦ pair_noun adj rest existing
  | false ↦ some (dashed adj noun)
]

unfoldable pub pair_adjective : List Text → List Text → Option Text
unfolding pair_noun
pair_adjective [] existing = none
pair_adjective (adj ∷ rest) existing = elim (pair_noun adj nouns existing) [
  | none ↦ pair_adjective rest existing
  | some name ↦ some name
]

abbrev pub candidate : Text → ℕ → Text
candidate name suffix = dashed name (decimal suffix)

-- The last loop, which has no bound; `fuel` is one.
unfoldable pub suffix_search : ℕ → ℕ → Text → List Text → Option Text
suffix_search zero suffix name existing = none
suffix_search (suc fuel) suffix name existing = elim (listed (candidate name suffix) existing) [
  | true ↦ suffix_search fuel (suffix + 1) name existing
  | false ↦ some (candidate name suffix)
]

-- A `return` of an earlier loop, or what comes behind it.
abbrev pub or_else : Option Text → Option Text → Option Text
or_else (some name) rest = some name
or_else none rest = rest

unfoldable pub generate_unique_name : ℕ → (ℕ → Draw) → List Text → Option Text
unfolding draw_names pair_adjective suffix_search
generate_unique_name fuel draws existing = or_else (draw_names 100 0 draws existing) (
    or_else (pair_adjective adjectives existing)
      (suffix_search fuel 0 (generate_name (draws 100)) existing))
