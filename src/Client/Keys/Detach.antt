-- ===== src/Client/Keys/Detach.antt =====
-- The detach key: ParseDetachKey and encodeDetachKey of internal/client/keys.go. The encoder of libghostty
-- is a parameter.
use hauntty.Prelude.{
  ℕ, ◌+◌, ◌-◌, ◌%◌, ◌^◌, Bool, true, false, not, ◌&&◌, List, [], ◌∷◌, Option, none, some, Text,
  codes, bit_and, leb, ◌==◌, if◌then◌else◌, Result, ok, err,
}
use hauntty.Keyboard.{
  KeyName, key_a, key_backquote, key_backslash, key_bracket_left, key_bracket_right, key_comma,
  key_digit0, key_digit1, key_digit2, key_digit3, key_digit4, key_digit5, key_digit6, key_digit7,
  key_digit8, key_digit9, key_equal, key_minus, key_period, key_quote, key_semicolon, key_slash,
  key_space, key, KeyEvent, mod_shift, mod_ctrl,
}
use hauntty.Client.Keys.{KeyInput, KeyError, encode_failed, check_detach_key, parse_key_notation}

-- strings.IndexByte, and the byte at that index of the other string.
unfoldable pub byte_beside : ℕ → Text → Text → Option ℕ
byte_beside ch [] ys = none
byte_beside ch (x ∷ xs) [] = none
byte_beside ch (x ∷ xs) (y ∷ ys) = if x == ch then some y else byte_beside ch xs ys

unfoldable pub shifted_key_byte : ℕ → Option ℕ
unfolding byte_beside
shifted_key_byte ch =
    if leb 97 ch && leb ch 122
    then some (ch - 32)
    else byte_beside ch (codes "`1234567890-=[]\\;',./") (codes "~!@#$%^&*()_+{}|:\"<>?")

unfoldable pub among : ℕ → Text → Bool
among ch [] = false
among ch (c ∷ cs) = if c == ch then true else among ch cs

unfoldable pub detach_keys : List (Text × KeyName)
detach_keys =
    (codes ")", key_digit0)
    ∷ (codes "!", key_digit1)
    ∷ (codes "@", key_digit2)
    ∷ (codes "#", key_digit3)
    ∷ (codes "$", key_digit4)
    ∷ (codes "%", key_digit5)
    ∷ (codes "^", key_digit6)
    ∷ (codes "&", key_digit7)
    ∷ (codes "*", key_digit8)
    ∷ (codes "(", key_digit9)
    ∷ (codes "`~", key_backquote)
    ∷ (codes "\\|", key_backslash)
    ∷ (codes "[{", key_bracket_left)
    ∷ (codes "]}", key_bracket_right)
    ∷ (codes ",<", key_comma)
    ∷ (codes "=+", key_equal)
    ∷ (codes "-_", key_minus)
    ∷ (codes ".>", key_period)
    ∷ (codes "'\"", key_quote)
    ∷ (codes ";:", key_semicolon)
    ∷ (codes "/?", key_slash)
    ∷ (codes " ", key_space)
    ∷ []

unfoldable pub switch_key : ℕ → List (Text × KeyName) → Option ℕ
unfolding among
switch_key ch [] = none
switch_key ch ((bytes, name) ∷ cases) =
    if among ch bytes then some (key name) else switch_key ch cases

unfoldable pub detach_physical_key : ℕ → Option ℕ
unfolding switch_key detach_keys
detach_physical_key ch =
    if leb 97 ch && leb ch 122
    then some (key key_a + (ch - 97))
    else if leb 48 ch && leb ch 57
    then some (key key_digit0 + (ch - 48))
    else switch_key ch detach_keys

abbrev pub holds : ℕ → ℕ → Bool
holds mods mask = not (bit_and mods mask == 0)

-- `text` and `consumed`, by whether Shift and Ctrl are held.
unfoldable pub detach_text : Bool → Option ℕ → Bool → ℕ → Text × ℕ
detach_text true (some shifted) ctrl code = (shifted ∷ [], mod_shift)
detach_text true none false code = (code ∷ [], 0)
detach_text true none true code = ([], 0)
detach_text false shifted false code = (code ∷ [], 0)
detach_text false shifted true code = ([], 0)

abbrev pub detach_event_of : ℕ → ℕ → Text × ℕ → Option ℕ → Option KeyEvent
detach_event_of code mods (text, consumed) none = none
detach_event_of code mods (text, consumed) (some key) = some (record {
  key = key;
  mods = mods % 2 ^ 16;
  consumed_mods = consumed;
  composing = false;
  unshifted_codepoint = code;
  utf8 = text;
})

-- encodeDetachKey: the event that the encoder gets, `none` for an unsupported key.
unfoldable pub detach_key_event : ℕ → ℕ → Option KeyEvent
unfolding detach_text shifted_key_byte detach_physical_key
detach_key_event code mods =
    detach_event_of code mods
      (detach_text (holds mods mod_shift) (shifted_key_byte (code % 256)) (holds mods mod_ctrl)
        code)
      (detach_physical_key (code % 256))

-- The encoder's bytes for an event, in the legacy and in the kitty mode of the terminal.
pub record KeyEncoder : Type 0 where
  pub legacy : KeyEvent → Option Text
  pub kitty : KeyEvent → Option Text

pub record DetachKey : Type 0 where
  pub raw_byte : ℕ
  pub has_raw : Bool
  pub csi_seq : Text

abbrev pub encoded : (KeyEvent → Option Text) → Option KeyEvent → Result KeyError Text
encoded encode none = err encode_failed
encoded encode (some event) = elim (encode event) [ none ↦ err encode_failed | some seq ↦ ok seq ]

-- A legacy encoding of one byte other than ESC is the raw byte.
abbrev pub detach_key_of : Text → Text → DetachKey
detach_key_of (b ∷ []) kitty =
    if b == 0x1b
    then record { raw_byte = 0; has_raw = false; csi_seq = kitty }
    else record { raw_byte = b; has_raw = true; csi_seq = kitty }
detach_key_of legacy kitty = record { raw_byte = 0; has_raw = false; csi_seq = kitty }

abbrev pub both_encodings : Result KeyError Text → Result KeyError Text → Result KeyError DetachKey
both_encodings (err e) kitty = err e
both_encodings (ok legacy) (err e) = err e
both_encodings (ok legacy) (ok kitty) = ok (detach_key_of legacy kitty)

abbrev pub detach_key : KeyEncoder → KeyInput → Result KeyError DetachKey
detach_key encoder ki =
    both_encodings (encoded encoder.legacy (detach_key_event ki.code (bit_and ki.mods mod_ctrl)))
      (encoded encoder.kitty (detach_key_event ki.code ki.mods))

abbrev pub checked_detach_key : KeyEncoder → Result KeyError KeyInput → Result KeyError DetachKey
checked_detach_key encoder (err e) = err e
checked_detach_key encoder (ok ki) = detach_key encoder ki

abbrev pub detach_key_from : KeyEncoder → Result KeyError KeyInput → Result KeyError DetachKey
detach_key_from encoder (err e) = err e
detach_key_from encoder (ok ki) = checked_detach_key encoder (check_detach_key ki)

unfoldable pub parse_detach_key : KeyEncoder → Text → Result KeyError DetachKey
parse_detach_key encoder notation = detach_key_from encoder (parse_key_notation notation)
