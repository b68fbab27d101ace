-- ===== src/Client/Keys/Notation.antt =====
-- What a notation of modifiers and a key stands for.
use hauntty.Prelude.{
  ℕ, ◌≡◌, refl, ap, ◌∙◌, false, List, [], ◌∷◌, ◌++◌, append_assoc, append-nil, Option-cases, none,
  some, Text, ◌==◌, bit_or, Result, ok, err, All, inl, inr,
}
use hauntty.Client.Keys.{
  modifier, with_code, KeyInput, KeyError, unknown_modifier, parse_key_name, split_from,
  parse_parts, parse_key_notation,
}

-- Nothing but `+` separates the parts.
abbrev pub IsPart : Text → Type 0
IsPart part = All (λ c. (c == 43) ≡ false) part

abbrev pub join_plus : List Text → Text → Text
join_plus [] key = key
join_plus (part ∷ parts) key = part ++ 43 ∷ join_plus parts key

abbrev pub parts_of : List Text → Text → List Text
parts_of [] key = key ∷ []
parts_of (part ∷ parts) key = part ∷ parts_of parts key

split-last : (acc key : Text) → IsPart key → split_from acc key ≡ (acc ++ key) ∷ []
unfolding split_from
split-last acc [] p = rw (append-nil acc)
split-last acc (c ∷ key) p =
    rw (p.0) (split-last (acc ++ c ∷ []) key p.1 ∙ ap (λ k. k ∷ []) (append_assoc acc (c ∷ []) key))

split-part :
    (acc part rest : Text)
    → IsPart part
    → split_from acc (part ++ 43 ∷ rest) ≡ (acc ++ part) ∷ split_from [] rest
unfolding split_from
split-part acc [] rest p = rw (append-nil acc)
split-part acc (c ∷ part) rest p = rw (p.0) (
    split-part (acc ++ c ∷ []) part rest p.1
    ∙ ap (λ k. k ∷ split_from [] rest) (append_assoc acc (c ∷ []) part))

split-join :
    (parts : List Text) (key : Text)
    → All IsPart parts
    → IsPart key
    → split_from [] (join_plus parts key) ≡ parts_of parts key
split-join [] key a k = split-last [] key k
split-join (part ∷ parts) key a k =
    split-part [] part (join_plus parts key) a.0
    ∙ ap (λ rest. part ∷ rest) (split-join parts key a.1 k)

-- The bits of modifiers, or the first name that is none.
abbrev pub mods_of : ℕ → List Text → Result KeyError ℕ
mods_of mods [] = ok mods
mods_of mods (part ∷ parts) = elim (modifier part) [
  | none ↦ err (unknown_modifier part)
  | some bit ↦ mods_of (bit_or mods bit) parts
]

abbrev pub with_key : Result KeyError ℕ → Result KeyError ℕ → Result KeyError KeyInput
with_key (err e) key = err e
with_key (ok mods) key = with_code mods key

parts-parse :
    (mods : ℕ) (parts : List Text) (key : Text)
    → parse_parts mods (parts_of parts key) ≡ with_key (mods_of mods parts) (parse_key_name key)
unfolding parse_parts
parts-parse mods [] key = refl
parts-parse mods (part ∷ []) key = elim (Option-cases (modifier part)) [
  | inl e ↦ rw (e, parse_parts, mods_of)
  | inr (bit, e) ↦ rw (e, parse_parts, mods_of) (parts-parse (bit_or mods bit) [] key)
]
parts-parse mods (part ∷ next ∷ parts) key = elim (Option-cases (modifier part)) [
  | inl e ↦ rw (e, parse_parts, mods_of)
  | inr (bit, e) ↦ rw (e, parse_parts, mods_of) (parts-parse (bit_or mods bit) (next ∷ parts) key)
]

-- A notation that joins names with `+` stands for the key of the last name with the union of the
-- modifiers before it. If one of these is no modifier, the error names the first such; if all are, and
-- the last is no key, the error names that.
pub parse_key_notation-join :
    (parts : List Text) (key : Text)
    → All IsPart parts
    → IsPart key
    → parse_key_notation (join_plus parts key) ≡ with_key (mods_of 0 parts) (parse_key_name key)
unfolding parse_key_notation
parse_key_notation-join parts key a k =
    ap (parse_parts 0) (split-join parts key a k) ∙ parts-parse 0 parts key
