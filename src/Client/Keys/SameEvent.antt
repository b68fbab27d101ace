-- ===== src/Client/Keys/SameEvent.antt =====
-- The client's event for a detach key against the daemon's event for a key that is sent.
use hauntty.Prelude.{
  ℕ, ◌%◌, ◌≤◌, ◌<◌, ◌≡◌, refl, sym, ◌∙◌, ap, Bool, true, false, ◌&&◌, ◌||◌, Option, none, some,
  Text, leb, all_below, all_below_lem, same_value, same_value→eq, arith,
}
use mathlib.Core.Path.{Path}
use hauntty.Keyboard.{key, mod_shift, mod_ctrl}
use hauntty.Daemon.Terminal.{
  ascii_keys, switch_byte, has_byte, paired_byte, shifted_ascii, ascii_physical_key, has_bits,
  printable_text, printable_key, consumed, event_of, terminal_key_event, client_key_event,
}
use hauntty.Client.Keys.Detach.{
  byte_beside, shifted_key_byte, among, detach_keys, switch_key, detach_physical_key, detach_text,
  detach_event_of, detach_key_event,
}

abbrev pub is_upper : ℕ → Bool
is_upper ch = leb 65 ch && leb ch 90

-- An equality of two tables at a byte that is no upper-case letter.
abbrev agrees : ℕ → Bool
agrees ch = is_upper ch || same_value (detach_physical_key ch) (ascii_physical_key ch)

agrees_everywhere : all_below 256 agrees ≡ true
unfolding all_below ascii_keys switch_byte has_byte ascii_physical_key among detach_keys switch_key
    detach_physical_key key
agrees_everywhere = refl

shifts_everywhere : all_below 256 (λ ch. same_value (shifted_key_byte ch) (shifted_ascii ch)) ≡ true
unfolding all_below paired_byte shifted_ascii byte_beside shifted_key_byte
shifts_everywhere = refl

same_key :
    (ch : ℕ) → ch < 256 → is_upper ch ≡ false → detach_physical_key ch ≡ ascii_physical_key ch
same_key ch b lower =
    let agreed : agrees ch ≡ true = all_below_lem 256 agrees agrees_everywhere ch b in
    same_value→eq (detach_physical_key ch) (ascii_physical_key ch) (
      sym (ap (λ u. u || same_value (detach_physical_key ch) (ascii_physical_key ch)) lower)
      ∙ agreed)

same_shift : (ch : ℕ) → ch < 256 → shifted_key_byte ch ≡ shifted_ascii ch
same_shift ch b = same_value→eq (shifted_key_byte ch) (shifted_ascii ch) (
    all_below_lem 256 (λ c. same_value (shifted_key_byte c) (shifted_ascii c)) shifts_everywhere ch
      b)

-- The text and the consumed modifiers, by what is held.
same_text :
    (shift : Bool) (shifted : Option ℕ) (ctrl : Bool) (code : ℕ)
    → Path
        (Text × ℕ)
        (detach_text shift shifted ctrl code)
        (printable_text shift shifted ctrl code, consumed shift shifted)
unfolding detach_text printable_text
same_text true (some c) ctrl code = refl
same_text true none true code = refl
same_text true none false code = refl
same_text false none true code = refl
same_text false (some c) true code = refl
same_text false none false code = refl
same_text false (some c) false code = refl

same_event_of :
    (code mods consumed : ℕ) (text : Text) (key : Option ℕ)
    → detach_event_of code mods (text, consumed) key
      ≡ event_of mods consumed (printable_key key code text)
same_event_of code mods consumed text none = refl
same_event_of code mods consumed text (some k) = refl

printable_event :
    (code mods : ℕ)
    → (leb 0x20 code && leb code 0x7e) ≡ true
    → code % 256 ≡ code
    → client_key_event code mods
      ≡ event_of mods (consumed (has_bits mods mod_shift) (shifted_ascii code)) (
          printable_key (ascii_physical_key code) code (
            printable_text
              (has_bits mods mod_shift)
              (shifted_ascii code)
              (has_bits mods mod_ctrl)
              code))
unfolding client_key_event terminal_key_event
printable_event code mods printable small = rw (printable, small)

-- For a printable key that is no upper-case letter, whatever modifiers are held, the event that the
-- client has encoded for a detach key is the event that the daemon has encoded for a key that is sent:
-- the same physical key, modifiers, consumed modifiers, code point and text, or none from both.
pub detach_key_event-client_key_event :
    (code mods : ℕ)
    → 0x20 ≤ code
    → code ≤ 0x7e
    → is_upper code ≡ false
    → detach_key_event code mods ≡ client_key_event code mods
unfolding detach_key_event
detach_key_event-client_key_event code mods low high lower =
    let small : code % 256 ≡ code = omega arith in
    let printable : (leb 0x20 code && leb code 0x7e) ≡ true = ground arith in
    let b : code < 256 = omega arith in
    rw small (
      ap
        (λ k.
          detach_event_of code mods
            (detach_text (has_bits mods mod_shift) (shifted_key_byte code) (has_bits mods mod_ctrl)
              code)
            k)
        (same_key code b lower)
      ∙ (ap
            (λ r.
              detach_event_of code mods
                (detach_text (has_bits mods mod_shift) r (has_bits mods mod_ctrl) code)
                (ascii_physical_key code))
            (same_shift code b)
          ∙ (ap (λ t. detach_event_of code mods t (ascii_physical_key code))
                (same_text (has_bits mods mod_shift) (shifted_ascii code) (has_bits mods mod_ctrl)
                  code)
              ∙ (same_event_of code mods (consumed (has_bits mods mod_shift) (shifted_ascii code)) _
                    (ascii_physical_key code)
                  ∙ sym (printable_event code mods printable small)))))
