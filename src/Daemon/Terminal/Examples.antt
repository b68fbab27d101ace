-- ===== src/Daemon/Terminal/Examples.antt =====
-- Keys that are sent.
use hauntty.Prelude.{◌≡◌, refl, [], ◌∷◌, some, true, false}
use hauntty.Keyboard.{key}
use hauntty.Daemon.Terminal.{
  emit_vt, terminal_dump_format, client_key_event, terminal_key_event, ascii_physical_key,
  ascii_keys, switch_byte, has_byte, shifted_ascii, paired_byte, printable_text, special_key,
  special_keys,
}

shift_a_event :
    client_key_event 97 1
    ≡ some (record {
      key = 20;
      mods = 1;
      consumed_mods = 1;
      composing = false;
      unshifted_codepoint = 97;
      utf8 = 65 ∷ [];
    })
unfolding client_key_event terminal_key_event ascii_physical_key ascii_keys switch_byte has_byte
    shifted_ascii paired_byte printable_text special_key special_keys key
shift_a_event = refl

f1_event :
    client_key_event 0x130 1
    ≡ some (record {
      key = 121;
      mods = 1;
      consumed_mods = 1;
      composing = false;
      unshifted_codepoint = 0;
      utf8 = [];
    })
unfolding client_key_event terminal_key_event ascii_physical_key ascii_keys switch_byte has_byte
    shifted_ascii paired_byte printable_text special_key special_keys key
f1_event = refl

vt_format :
    terminal_dump_format 0x21
    ≡ record { emit = emit_vt; unwrap = false; scrollback = true; full = false; safe = true }
unfolding terminal_dump_format
vt_format = refl
