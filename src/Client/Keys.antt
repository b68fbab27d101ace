-- ===== src/Client/Keys.antt =====
-- ParseKeyNotation, parseKeyName and the checks of ParseDetachKey of internal/client/keys.go, for a
-- notation that is trimmed and in lower case.
pub mod Notation
pub mod Detach
pub mod SameEvent
mod Examples
use hauntty.Prelude.{
  ℕ, Bool, true, false, not, ◌&&◌, ◌||◌, List, [], ◌∷◌, ◌++◌, Option, none, some, Text, codes,
  text_eq, ltb, leb, ◌==◌, if◌then◌else◌, bit_and, bit_or, Result, ok, err,
}

-- The names of keys, with their codes.
abbrev pub key_names : List (Text × ℕ)
key_names =
    (codes "enter", 0x100)
    ∷ (codes "return", 0x100)
    ∷ (codes "escape", 0x101)
    ∷ (codes "esc", 0x101)
    ∷ (codes "tab", 0x102)
    ∷ (codes "backspace", 0x103)
    ∷ (codes "space", 32)
    ∷ (codes "up", 0x110)
    ∷ (codes "down", 0x111)
    ∷ (codes "left", 0x112)
    ∷ (codes "right", 0x113)
    ∷ (codes "home", 0x120)
    ∷ (codes "end", 0x121)
    ∷ (codes "pageup", 0x122)
    ∷ (codes "pgup", 0x122)
    ∷ (codes "pagedown", 0x123)
    ∷ (codes "pgdn", 0x123)
    ∷ (codes "insert", 0x124)
    ∷ (codes "delete", 0x125)
    ∷ (codes "del", 0x125)
    ∷ (codes "f1", 0x130)
    ∷ (codes "f2", 0x131)
    ∷ (codes "f3", 0x132)
    ∷ (codes "f4", 0x133)
    ∷ (codes "f5", 0x134)
    ∷ (codes "f6", 0x135)
    ∷ (codes "f7", 0x136)
    ∷ (codes "f8", 0x137)
    ∷ (codes "f9", 0x138)
    ∷ (codes "f10", 0x139)
    ∷ (codes "f11", 0x13a)
    ∷ (codes "f12", 0x13b)
    ∷ []

-- ModShift is 1, ModCtrl 2, ModAlt 4 and ModSuper 8.
abbrev pub modifier_names : List (Text × ℕ)
modifier_names =
    (codes "ctrl", 2)
    ∷ (codes "control", 2)
    ∷ (codes "shift", 1)
    ∷ (codes "alt", 4)
    ∷ (codes "opt", 4)
    ∷ (codes "option", 4)
    ∷ (codes "super", 8)
    ∷ (codes "cmd", 8)
    ∷ (codes "command", 8)
    ∷ []

-- A switch on a string.
unfoldable pub name_value : Text → List (Text × ℕ) → Option ℕ
name_value name [] = none
name_value name ((key, value) ∷ names) =
    if text_eq name key then some value else name_value name names

pub record KeyInput : Type 0 where
  pub code : ℕ
  pub mods : ℕ

pub data KeyError : Type 0 where
  unknown_modifier unknown_key : Text → KeyError
  needs_ctrl needs_printable encode_failed : KeyError

abbrev pub is_printable : ℕ → Bool
is_printable ch = leb 0x20 ch && leb ch 0x7e

-- A name of one printable byte is that key.
unfoldable pub single_key : Text → Result KeyError ℕ
single_key (ch ∷ []) = if is_printable ch then ok ch else err (unknown_key (ch ∷ []))
single_key name = err (unknown_key name)

unfoldable pub parse_key_name : Text → Result KeyError ℕ
unfolding name_value single_key
parse_key_name name = elim (name_value name key_names) [
  | some code ↦ ok code
  | none ↦ single_key name
]

-- strings.Split by `+` (43).
unfoldable pub split_from : Text → Text → List Text
split_from part [] = part ∷ []
split_from part (c ∷ s) = if c == 43 then part ∷ split_from [] s else split_from (part ++ c ∷ []) s

unfoldable pub modifier : Text → Option ℕ
unfolding name_value
modifier part = name_value part modifier_names

abbrev pub with_code : ℕ → Result KeyError ℕ → Result KeyError KeyInput
with_code mods (ok code) = ok (record { code = code; mods = mods })
with_code mods (err e) = err e

-- The loop over the modifiers, and the key, which is the last part.
unfoldable pub parse_parts : ℕ → List Text → Result KeyError KeyInput
unfolding modifier parse_key_name
parse_parts mods [] = err (unknown_key [])
parse_parts mods (key ∷ []) = with_code mods (parse_key_name key)
parse_parts mods (part ∷ next ∷ parts) = elim (modifier part) [
  | none ↦ err (unknown_modifier part)
  | some bit ↦ parse_parts (bit_or mods bit) (next ∷ parts)
]

unfoldable pub parse_key_notation : Text → Result KeyError KeyInput
unfolding split_from parse_parts
parse_key_notation notation = parse_parts 0 (split_from [] notation)

-- The checks of ParseDetachKey.
unfoldable pub check_detach_key : KeyInput → Result KeyError KeyInput
check_detach_key ki =
    if bit_and ki.mods 2 == 0
    then err needs_ctrl
    else if ltb ki.code 0x20 || ltb 0x7e ki.code
    then err needs_printable
    else ok ki
