-- ===== src/Daemon/Terminal.antt =====
-- The formats of a dump and the events of keys: internal/daemon/terminal_state.go and the constants of
-- internal/protocol/dump.go.
mod Examples
use hauntty.Prelude.{
  ℕ, ◌+◌, ◌-◌, ◌%◌, ◌^◌, Bool, true, false, not, ◌&&◌, List, [], ◌∷◌, Option, none, some, Text,
  codes, bit_and, leb, ◌==◌, if◌then◌else◌,
}
use hauntty.Keyboard.{
  KeyName, key_a, key_arrow_down, key_arrow_left, key_arrow_right, key_arrow_up, key_b,
  key_backquote, key_backslash, key_backspace, key_bracket_left, key_bracket_right, key_c,
  key_comma, key_d, key_delete, key_digit0, key_digit1, key_digit2, key_digit3, key_digit4,
  key_digit5, key_digit6, key_digit7, key_digit8, key_digit9, key_e, key_end, key_enter, key_equal,
  key_escape, key_f, key_f1, key_g, key_h, key_home, key_i, key_insert, key_j, key_k, key_l, key_m,
  key_minus, key_n, key_o, key_p, key_page_down, key_page_up, key_period, key_q, key_quote, key_r,
  key_s, key_semicolon, key_slash, key_space, key_t, key_tab, key_u, key_v, key_w, key_x, key_y,
  key_z, key, KeyEvent, mod_shift, mod_ctrl,
}

abbrev pub dump_format_mask : ℕ
dump_format_mask = 0x0f

abbrev pub dump_flag_unwrap : ℕ
dump_flag_unwrap = 0x10

abbrev pub dump_flag_scrollback : ℕ
dump_flag_scrollback = 0x20

pub data Emit : Type 0 where
  emit_plain emit_vt emit_html : Emit

pub record TerminalFormat : Type 0 where
  pub emit : Emit
  pub unwrap : Bool
  pub scrollback : Bool
  pub full : Bool
  pub safe : Bool

abbrev pub has_bits : ℕ → ℕ → Bool
has_bits n mask = not (bit_and n mask == 0)

unfoldable pub terminal_dump_format : ℕ → TerminalFormat
terminal_dump_format format =
    let plain : TerminalFormat = record {
      emit = emit_plain;
      unwrap = has_bits format dump_flag_unwrap;
      scrollback = has_bits format dump_flag_scrollback;
      full = false;
      safe = false;
    } in
    if bit_and format dump_format_mask == 1
    then record plain { emit = emit_vt; safe = true }
    else if bit_and format dump_format_mask == 2
    then record plain { emit = emit_html }
    else plain

-- strings.IndexByte, and the byte at that index of the other string.
unfoldable pub paired_byte : ℕ → Text → Text → Option ℕ
paired_byte ch [] ys = none
paired_byte ch (x ∷ xs) [] = none
paired_byte ch (x ∷ xs) (y ∷ ys) = if x == ch then some y else paired_byte ch xs ys

unfoldable pub shifted_ascii : ℕ → Option ℕ
unfolding paired_byte
shifted_ascii ch =
    if leb 97 ch && leb ch 122
    then some (ch - 32)
    else paired_byte ch (codes "`1234567890-=[]\\;',./") (codes "~!@#$%^&*()_+{}|:\"<>?")

unfoldable pub has_byte : ℕ → Text → Bool
has_byte ch [] = false
has_byte ch (c ∷ cs) = if c == ch then true else has_byte ch cs

-- A switch on a byte, by the bytes of each case.
unfoldable pub switch_byte : ℕ → List (Text × KeyName) → Option ℕ
unfolding has_byte
switch_byte ch [] = none
switch_byte ch ((bytes, name) ∷ cases) =
    if has_byte ch bytes then some (key name) else switch_byte ch cases

unfoldable pub ascii_keys : List (Text × KeyName)
ascii_keys =
    (codes "`~", key_backquote)
    ∷ (codes "\\|", key_backslash)
    ∷ (codes "[{", key_bracket_left)
    ∷ (codes "]}", key_bracket_right)
    ∷ (codes ",<", key_comma)
    ∷ (codes "0)", key_digit0)
    ∷ (codes "1!", key_digit1)
    ∷ (codes "2@", key_digit2)
    ∷ (codes "3#", key_digit3)
    ∷ (codes "4$", key_digit4)
    ∷ (codes "5%", key_digit5)
    ∷ (codes "6^", key_digit6)
    ∷ (codes "7&", key_digit7)
    ∷ (codes "8*", key_digit8)
    ∷ (codes "9(", key_digit9)
    ∷ (codes "=+", key_equal)
    ∷ (codes "aA", key_a)
    ∷ (codes "bB", key_b)
    ∷ (codes "cC", key_c)
    ∷ (codes "dD", key_d)
    ∷ (codes "eE", key_e)
    ∷ (codes "fF", key_f)
    ∷ (codes "gG", key_g)
    ∷ (codes "hH", key_h)
    ∷ (codes "iI", key_i)
    ∷ (codes "jJ", key_j)
    ∷ (codes "kK", key_k)
    ∷ (codes "lL", key_l)
    ∷ (codes "mM", key_m)
    ∷ (codes "nN", key_n)
    ∷ (codes "oO", key_o)
    ∷ (codes "pP", key_p)
    ∷ (codes "qQ", key_q)
    ∷ (codes "rR", key_r)
    ∷ (codes "sS", key_s)
    ∷ (codes "tT", key_t)
    ∷ (codes "uU", key_u)
    ∷ (codes "vV", key_v)
    ∷ (codes "wW", key_w)
    ∷ (codes "xX", key_x)
    ∷ (codes "yY", key_y)
    ∷ (codes "zZ", key_z)
    ∷ (codes "-_", key_minus)
    ∷ (codes ".>", key_period)
    ∷ (codes "'\"", key_quote)
    ∷ (codes ";:", key_semicolon)
    ∷ (codes "/?", key_slash)
    ∷ (codes " ", key_space)
    ∷ []

unfoldable pub ascii_physical_key : ℕ → Option ℕ
unfolding switch_byte ascii_keys
ascii_physical_key ch = switch_byte ch ascii_keys

-- The keys without a character, with their code points.
unfoldable pub special_keys : List (ℕ × KeyName × ℕ)
special_keys =
    (0x100, key_enter, 13)
    ∷ (0x101, key_escape, 0x1b)
    ∷ (0x102, key_tab, 9)
    ∷ (0x103, key_backspace, 0x7f)
    ∷ (0x110, key_arrow_up, 0)
    ∷ (0x111, key_arrow_down, 0)
    ∷ (0x112, key_arrow_left, 0)
    ∷ (0x113, key_arrow_right, 0)
    ∷ (0x120, key_home, 0)
    ∷ (0x121, key_end, 0)
    ∷ (0x122, key_page_up, 0)
    ∷ (0x123, key_page_down, 0)
    ∷ (0x124, key_insert, 0)
    ∷ (0x125, key_delete, 0)
    ∷ []

-- The key, the code point and the text.
abbrev pub KeyText : Type 0
KeyText = ℕ × ℕ × Text

unfoldable pub special_key : ℕ → List (ℕ × KeyName × ℕ) → Option KeyText
special_key key_code [] =
    if leb 0x130 key_code && leb key_code 0x13b
    then some (key key_f1 + (key_code - 0x130), 0, [])
    else none
special_key key_code ((code, name, codepoint) ∷ keys) =
    if code == key_code then some (key name, codepoint, []) else special_key key_code keys

-- The text of a printable key, by whether Shift and Ctrl are held.
unfoldable pub printable_text : Bool → Option ℕ → Bool → ℕ → Text
printable_text true (some shifted) ctrl ch = shifted ∷ []
printable_text true none ctrl ch = if ctrl then [] else ch ∷ []
printable_text false shifted ctrl ch = if ctrl then [] else ch ∷ []

abbrev pub printable_key : Option ℕ → ℕ → Text → Option KeyText
printable_key none code text = none
printable_key (some key) code text = some (key, code, text)

unfoldable pub terminal_key_event : ℕ → ℕ → Option KeyText
unfolding ascii_physical_key shifted_ascii printable_text special_key special_keys
terminal_key_event key_code mods =
    if leb 0x20 key_code && leb key_code 0x7e
    then printable_key (ascii_physical_key (key_code % 256)) key_code (
        printable_text (has_bits mods mod_shift) (shifted_ascii (key_code % 256))
          (has_bits mods mod_ctrl) (key_code % 256))
    else special_key key_code special_keys

abbrev pub is_shifted : Option ℕ → Bool
is_shifted none = false
is_shifted (some shifted) = true

abbrev pub consumed : Bool → Option ℕ → ℕ
consumed shift shifted = if shift && is_shifted shifted then mod_shift else 0

abbrev pub event_of : ℕ → ℕ → Option KeyText → Option KeyEvent
event_of mods consumed none = none
event_of mods consumed (some (key, codepoint, text)) = some (record {
  key = key;
  mods = mods % 2 ^ 16;
  consumed_mods = consumed;
  composing = false;
  unshifted_codepoint = codepoint;
  utf8 = text;
})

-- encodeClientKey: the event that the encoder gets, `none` for an unsupported key.
unfoldable pub client_key_event : ℕ → ℕ → Option KeyEvent
unfolding terminal_key_event shifted_ascii
client_key_event key_code mods =
    event_of mods (consumed (has_bits mods mod_shift) (shifted_ascii (key_code % 256)))
      (terminal_key_event key_code mods)
