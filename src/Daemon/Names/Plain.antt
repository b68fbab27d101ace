-- ===== src/Daemon/Names/Plain.antt =====
-- A generated name has no slash, so that it names a file of the state directory.
use hauntty.Prelude.{
  ℕ, zero, suc, ◌+◌, ◌%◌, ◌/◌, ◌≡◌, refl, subst, Bool-cases, inl, inr, Bool, true, false, not, ◌&&◌,
  List, [], ◌∷◌, ◌++◌, Option, none, some, Text, codes, ◌==◌, ltb, arith,
}
use hauntty.Daemon.Session.Decimal.{decimal, decimal_digits}
use hauntty.Daemon.Server.Paths.{has_slash}
use hauntty.Daemon.Names.Unique.{adjective_lem}
use hauntty.Daemon.Names.{
  Draw, listed, dashed, nouns, adjectives, word, generate_name, draw_names, pair_noun,
  pair_adjective, candidate, suffix_search, or_else, generate_unique_name,
}

has_slash-append :
    (xs ys : Text) → has_slash xs ≡ false → has_slash ys ≡ false → has_slash (xs ++ ys) ≡ false
unfolding has_slash
has_slash-append [] ys h k = k
has_slash-append (x ∷ xs) ys h k = ground (arith, has_slash-append xs ys)

are_plain : List Text → Bool
are_plain [] = true
are_plain (w ∷ ws) = not (has_slash w) && are_plain ws

has_slash-word : (i : ℕ) (ws : List Text) → are_plain ws ≡ true → has_slash (word i ws) ≡ false
unfolding are_plain word has_slash
has_slash-word i [] h = refl
has_slash-word zero (w ∷ ws) h = ground arith
has_slash-word (suc i) (w ∷ ws) h = has_slash-word i ws (ground arith)

are_plain-nouns : are_plain nouns ≡ true
unfolding are_plain has_slash nouns
are_plain-nouns = refl

are_plain-adjectives : are_plain adjectives ≡ true
unfolding are_plain has_slash adjectives
are_plain-adjectives = refl

has_slash-dashed :
    (adj noun : Text)
    → has_slash adj ≡ false
    → has_slash noun ≡ false
    → has_slash (dashed adj noun) ≡ false
unfolding has_slash
has_slash-dashed adj noun h k = has_slash-append adj (codes "-" ++ noun) h k

has_slash-generate_name : (d : Draw) → has_slash (generate_name d) ≡ false
unfolding generate_name
has_slash-generate_name d =
    has_slash-dashed (word d.adjective adjectives) (word d.noun nouns)
      (has_slash-word d.adjective adjectives are_plain-adjectives)
      (has_slash-word d.noun nouns are_plain-nouns)

-- What a loop returns, if it returns, is plain.
abbrev PlainIfAny : Option Text → Type 0
PlainIfAny none = Unit {0}
PlainIfAny (some name) = has_slash name ≡ false

has_slash-digits :
    (fuel n : ℕ) (rest : Text)
    → has_slash rest ≡ false
    → has_slash (decimal_digits fuel n rest) ≡ false
unfolding decimal_digits has_slash
has_slash-digits zero n rest h = h
has_slash-digits (suc fuel) n rest h =
    let digit : (48 + n % 10 == 47) ≡ false = ground arith in
    let longer : has_slash ((48 + n % 10) ∷ rest) ≡ false = rw digit h in
    elim (Bool-cases (ltb n 10)) [
      | inl e ↦ rw e longer
      | inr e ↦ rw e (has_slash-digits fuel (n / 10) ((48 + n % 10) ∷ rest) longer)
    ]

has_slash-decimal : (n : ℕ) → has_slash (decimal n) ≡ false
unfolding decimal has_slash
has_slash-decimal n = has_slash-digits (suc n) n [] refl

draw-PlainIfAny :
    (rounds i : ℕ) (draws : ℕ → Draw) (existing : List Text)
    → PlainIfAny (draw_names rounds i draws existing)
unfolding draw_names
draw-PlainIfAny zero i draws existing = tt
draw-PlainIfAny (suc rounds) i draws existing =
    elim (Bool-cases (listed (generate_name (draws i)) existing)) [
      | inl taken ↦ rw (taken, draw_names) (draw-PlainIfAny rounds (i + 1) draws existing)
      | inr free ↦ rw (free, draw_names) (has_slash-generate_name (draws i))
    ]

noun-PlainIfAny :
    (adj : Text) (rest existing : List Text)
    → has_slash adj ≡ false
    → are_plain rest ≡ true
    → PlainIfAny (pair_noun adj rest existing)
unfolding pair_noun are_plain
noun-PlainIfAny adj [] existing h k = tt
noun-PlainIfAny adj (noun ∷ rest) existing h k =
    elim (Bool-cases (listed (dashed adj noun) existing)) [
      | inl taken ↦ rw (taken, pair_noun) (noun-PlainIfAny adj rest existing h (ground arith))
      | inr free ↦ rw (free, pair_noun) (has_slash-dashed adj noun h (ground arith))
    ]

either-PlainIfAny :
    (first rest : Option Text)
    → PlainIfAny first
    → PlainIfAny rest
    → PlainIfAny (or_else first rest)
either-PlainIfAny none rest h r = r
either-PlainIfAny (some name) rest h r = h

adjective-PlainIfAny :
    (rest existing : List Text) → are_plain rest ≡ true → PlainIfAny (pair_adjective rest existing)
unfolding pair_adjective are_plain
adjective-PlainIfAny [] existing h = tt
adjective-PlainIfAny (adj ∷ rest) existing h = rw (adjective_lem adj rest existing) (
    either-PlainIfAny (pair_noun adj nouns existing) (pair_adjective rest existing)
      (noun-PlainIfAny adj nouns existing (ground arith) are_plain-nouns)
      (adjective-PlainIfAny rest existing (ground arith)))

search-PlainIfAny :
    (fuel suffix : ℕ) (name : Text) (existing : List Text)
    → has_slash name ≡ false
    → PlainIfAny (suffix_search fuel suffix name existing)
unfolding suffix_search
search-PlainIfAny zero suffix name existing h = tt
search-PlainIfAny (suc fuel) suffix name existing h =
    elim (Bool-cases (listed (candidate name suffix) existing)) [
      | inl taken ↦ rw (taken, suffix_search) (search-PlainIfAny fuel (suffix + 1) name existing h)
      | inr free ↦
          rw (free, suffix_search)
            (has_slash-dashed name (decimal suffix) h (has_slash-decimal suffix))
    ]

generated-PlainIfAny :
    (fuel : ℕ) (draws : ℕ → Draw) (existing : List Text)
    → PlainIfAny (generate_unique_name fuel draws existing)
unfolding generate_unique_name
generated-PlainIfAny fuel draws existing =
    either-PlainIfAny (draw_names 100 0 draws existing) _ (draw-PlainIfAny 100 0 draws existing) (
      either-PlainIfAny (pair_adjective adjectives existing) _
        (adjective-PlainIfAny adjectives existing are_plain-adjectives)
        (search-PlainIfAny fuel 0 (generate_name (draws 100)) existing
          (has_slash-generate_name (draws 100))))

pub has_slash-generate_unique_name :
    (fuel : ℕ) (draws : ℕ → Draw) (existing : List Text) (name : Text)
    → generate_unique_name fuel draws existing ≡ some name
    → has_slash name ≡ false
has_slash-generate_unique_name fuel draws existing name e =
    subst PlainIfAny e (generated-PlainIfAny fuel draws existing)
