-- ===== src/Daemon/Names/Unique.antt =====
-- A free name is found, however many names are taken.
use hauntty.Prelude.{
  ℕ, zero, suc, ◌+◌, ◌≤◌, ◌<◌, ◌≡◌, refl, sym, ◌∙◌, ap, Bool-cases, inl, inr, true, false, List, [],
  ◌∷◌, ◌++◌, Option, Option-cases, none, some, Text, text_eq, text_eq→eq, codes, if◌then◌else◌,
  length, drop, drop-append, arith,
}
use hauntty.Daemon.Session.Decimal.{decimal}
use hauntty.Daemon.Session.Numbers.{read_digits, read_digits-decimal}
use hauntty.Daemon.Names.{
  Draw, listed, dashed, nouns, adjectives, generate_name, draw_names, pair_noun, pair_adjective,
  candidate, suffix_search, or_else, generate_unique_name,
}

without : Text → List Text → List Text
without name [] = []
without name (n ∷ names) =
    let rest = without name names in if text_eq n name then names else n ∷ rest

length-without :
    (name : Text) (names : List Text)
    → listed name names ≡ true
    → suc (length (without name names)) ≡ length names
unfolding listed without
length-without name [] h = cc
length-without name (n ∷ names) h = elim (Bool-cases (text_eq n name)) [
  | inl e ↦ rw e refl
  | inr e ↦
      let inner : listed name names ≡ true =
        sym (ap (λ b. if b then true else listed name names) e) ∙ h in
      rw e (ap suc (length-without name names inner))
]

listed-without :
    (gone name : Text) (names : List Text)
    → text_eq gone name ≡ false
    → listed name names ≡ true
    → listed name (without gone names) ≡ true
unfolding listed without
listed-without gone name [] apart h = h
listed-without gone name (n ∷ names) apart h = elim (Bool-cases (text_eq n gone)) [
  | inl e ↦
      let other : text_eq n name ≡ false = ap (λ k. text_eq k name) (text_eq→eq n gone e) ∙ apart in
      rw e (sym (ap (λ b. if b then true else listed name names) other) ∙ h)
  | inr e ↦ elim (Bool-cases (text_eq n name)) [
    | inl same ↦ rw (e, same) refl
    | inr other ↦
        rw (e, other)
          (listed-without gone name names apart
            (sym (ap (λ b. if b then true else listed name names) other) ∙ h))
  ]
]

-- Two suffixes give two candidates.
candidate_injective : (name : Text) (s t : ℕ) → candidate name s ≡ candidate name t → s ≡ t
candidate_injective name s t e =
    let tails : codes "-" ++ decimal s ≡ codes "-" ++ decimal t =
      sym (drop-append name (codes "-" ++ decimal s))
      ∙ (ap (drop (length name)) e ∙ drop-append name (codes "-" ++ decimal t)) in
    let digits : decimal s ≡ decimal t = ap (drop 1) tails in
    sym (read_digits-decimal s) ∙ (ap (read_digits 0) digits ∙ read_digits-decimal t)

candidate_later :
    (name : Text) (s t : ℕ) → s < t → text_eq (candidate name s) (candidate name t) ≡ false
candidate_later name s t h = elim (Bool-cases (text_eq (candidate name s) (candidate name t))) [
  | inl e ↦
      let same : s ≡ t = candidate_injective name s t (text_eq→eq _ _ e) in absurd (omega arith)
  | inr e ↦ e
]

abbrev pub Free : List Text → Option Text → Type 0
Free existing found = (name : Text) × (found ≡ some name) × (listed name existing ≡ false)

-- `left` still holds every taken candidate from `suffix` on.
search-Free :
    (fuel suffix : ℕ) (name : Text) (existing left : List Text)
    → length left < fuel
    → ((t : ℕ)
        → suffix ≤ t
        → listed (candidate name t) existing ≡ true
        → listed (candidate name t) left ≡ true)
    → Free existing (suffix_search fuel suffix name existing)
unfolding suffix_search
search-Free zero suffix name existing left short held = absurd (omega arith)
search-Free (suc fuel) suffix name existing left short held =
    elim (Bool-cases (listed (candidate name suffix) existing)) [
      | inr free ↦ rw (free, suffix_search) (candidate name suffix, refl, free)
      | inl taken ↦
          let here : listed (candidate name suffix) left ≡ true = held suffix (omega arith) taken in
          let fewer : suc (length (without (candidate name suffix) left)) ≡ length left =
            length-without (candidate name suffix) left here in
          rw (taken, suffix_search)
            (search-Free fuel (suffix + 1) name existing (without (candidate name suffix) left)
              (omega arith)
              (λ t later h.
                listed-without (candidate name suffix) (candidate name t) left
                  (candidate_later name suffix t (omega arith)) (held t (omega arith) h)))
    ]

-- What a loop returns, if it returns, is free.
abbrev FreeIfAny : List Text → Option Text → Type 0
FreeIfAny existing none = Unit {0}
FreeIfAny existing (some name) = listed name existing ≡ false

draw-FreeIfAny :
    (rounds i : ℕ) (draws : ℕ → Draw) (existing : List Text)
    → FreeIfAny existing (draw_names rounds i draws existing)
unfolding draw_names
draw-FreeIfAny zero i draws existing = tt
draw-FreeIfAny (suc rounds) i draws existing =
    elim (Bool-cases (listed (generate_name (draws i)) existing)) [
      | inl taken ↦ rw (taken, draw_names) (draw-FreeIfAny rounds (i + 1) draws existing)
      | inr free ↦ rw (free, draw_names) free
    ]

noun-FreeIfAny :
    (adj : Text) (rest existing : List Text) → FreeIfAny existing (pair_noun adj rest existing)
unfolding pair_noun
noun-FreeIfAny adj [] existing = tt
noun-FreeIfAny adj (noun ∷ rest) existing = elim (Bool-cases (listed (dashed adj noun) existing)) [
  | inl taken ↦ rw (taken, pair_noun) (noun-FreeIfAny adj rest existing)
  | inr free ↦ rw (free, pair_noun) free
]

either-FreeIfAny :
    (existing : List Text) (first rest : Option Text)
    → FreeIfAny existing first
    → FreeIfAny existing rest
    → FreeIfAny existing (or_else first rest)
either-FreeIfAny existing none rest h r = r
either-FreeIfAny existing (some name) rest h r = h

pub adjective_lem :
    (adj : Text) (rest existing : List Text)
    → pair_adjective (adj ∷ rest) existing
      ≡ or_else (pair_noun adj nouns existing) (pair_adjective rest existing)
unfolding pair_adjective
adjective_lem adj rest existing = elim (Option-cases (pair_noun adj nouns existing)) [
  | inl e ↦ rw (e, pair_adjective)
  | inr (name, e) ↦ rw (e, pair_adjective)
]

adjective-FreeIfAny :
    (rest existing : List Text) → FreeIfAny existing (pair_adjective rest existing)
unfolding pair_adjective
adjective-FreeIfAny [] existing = tt
adjective-FreeIfAny (adj ∷ rest) existing = rw (adjective_lem adj rest existing) (
    either-FreeIfAny existing (pair_noun adj nouns existing) (pair_adjective rest existing)
      (noun-FreeIfAny adj nouns existing) (adjective-FreeIfAny rest existing))

or_else-Free :
    (existing : List Text) (first rest : Option Text)
    → FreeIfAny existing first
    → Free existing rest
    → Free existing (or_else first rest)
or_else-Free existing none rest h r = r
or_else-Free existing (some name) rest h r = (name, refl, h)

-- One round more of the last loop than there are names taken is enough, whatever is drawn: a name is
-- found, and it is not among those that are taken.
pub generate_unique_name-Free :
    (draws : ℕ → Draw) (existing : List Text)
    → Free existing (generate_unique_name (suc (length existing)) draws existing)
unfolding generate_unique_name
generate_unique_name-Free draws existing =
    or_else-Free existing (draw_names 100 0 draws existing) _ (draw-FreeIfAny 100 0 draws existing)
      (or_else-Free existing (pair_adjective adjectives existing) _
        (adjective-FreeIfAny adjectives existing)
        (search-Free (suc (length existing)) 0 (generate_name (draws 100)) existing existing
          (omega arith) (λ t later h. h)))
