-- ===== src/Client/Keys/Examples.antt =====
-- ctrl+shift+a.
use hauntty.Prelude.{arith, some, true, ◌%◌, ◌≡◌, refl, [], ◌∷◌, codes, ok, text_eq}
use hauntty.Daemon.Terminal.{client_key_event}
use hauntty.Client.Keys.Detach.{
  KeyEncoder, parse_detach_key, detach_key_event, detach_text, detach_physical_key, switch_key,
  among, shifted_key_byte, byte_beside,
}
use hauntty.Client.Keys.SameEvent.{detach_key_event-client_key_event}
use hauntty.Client.Keys.{
  check_detach_key, modifier, name_value, single_key, parse_key_name, split_from, parse_parts,
  parse_key_notation,
}

ctrl_shift_a : parse_key_notation (codes "ctrl+shift+a") ≡ ok (record { code = 97; mods = 3 })
unfolding parse_key_notation parse_parts split_from parse_key_name single_key modifier name_value
    text_eq
ctrl_shift_a = refl

detach_key_event-client_key_event_example : detach_key_event 97 3 ≡ client_key_event 97 3
detach_key_event-client_key_event_example =
    detach_key_event-client_key_event 97 3 (omega arith) (omega arith) refl

-- An encoder that gives control characters and a CSI sequence.
abbrev encoder : KeyEncoder
encoder = record {
  legacy = λ event. some ((event.unshifted_codepoint % 32) ∷ []);
  kitty = λ event. some (0x1b ∷ codes "[97;5u");
}

ctrl_a :
    parse_detach_key encoder (codes "ctrl+a")
    ≡ ok (record { raw_byte = 1; has_raw = true; csi_seq = 0x1b ∷ codes "[97;5u" })
unfolding parse_detach_key check_detach_key parse_key_notation parse_parts split_from parse_key_name
    single_key modifier name_value text_eq detach_key_event detach_text detach_physical_key
    switch_key among shifted_key_byte byte_beside
ctrl_a = refl
