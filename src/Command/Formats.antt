-- ===== src/Command/Formats.antt =====
-- The format that `ht dump` asks for is the format that the daemon dumps in.
use hauntty.Prelude.{
  ◌≡◌, refl, Bool, Bool-cases, inl, inr, true, false, Text, text_eq, codes, if◌then◌else◌,
}
use hauntty.Daemon.Terminal.{emit_plain, emit_vt, emit_html, TerminalFormat, terminal_dump_format}
use hauntty.Command.{dump_request_format}

-- What the flags of `ht dump` stand for.
abbrev pub asked_format : Text → Bool → Bool → TerminalFormat
asked_format format join scrollback = record {
  emit =
      if text_eq format (codes "vt")
      then emit_vt
      else if text_eq format (codes "html")
      then emit_html
      else emit_plain;
  unwrap = join;
  scrollback = scrollback;
  full = false;
  safe = text_eq format (codes "vt");
}

module _ (format : Text) where
  vt_format :
      (join scrollback : Bool)
      → text_eq format (codes "vt") ≡ true
      → terminal_dump_format (dump_request_format format join scrollback)
        ≡ asked_format format join scrollback
  unfolding terminal_dump_format dump_request_format
  vt_format true true e = rw e refl
  vt_format true false e = rw e refl
  vt_format false true e = rw e refl
  vt_format false false e = rw e refl

  html_format :
      (join scrollback : Bool)
      → text_eq format (codes "vt") ≡ false
      → text_eq format (codes "html") ≡ true
      → terminal_dump_format (dump_request_format format join scrollback)
        ≡ asked_format format join scrollback
  unfolding terminal_dump_format dump_request_format
  html_format true true e f = rw (e, f) refl
  html_format true false e f = rw (e, f) refl
  html_format false true e f = rw (e, f) refl
  html_format false false e f = rw (e, f) refl

  plain_format :
      (join scrollback : Bool)
      → text_eq format (codes "vt") ≡ false
      → text_eq format (codes "html") ≡ false
      → terminal_dump_format (dump_request_format format join scrollback)
        ≡ asked_format format join scrollback
  unfolding terminal_dump_format dump_request_format
  plain_format true true e f = rw (e, f) refl
  plain_format true false e f = rw (e, f) refl
  plain_format false true e f = rw (e, f) refl
  plain_format false false e f = rw (e, f) refl

  -- The byte that `ht dump` sends for a format and the flags for joined lines and scrollback is read by
  -- the daemon as that format, VT with the safe option, and with exactly those flags.
  pub terminal_dump_format-dump_request_format :
      (join scrollback : Bool)
      → terminal_dump_format (dump_request_format format join scrollback)
        ≡ asked_format format join scrollback
  terminal_dump_format-dump_request_format join scrollback =
      elim (Bool-cases (text_eq format (codes "vt"))) [
        | inl e ↦ vt_format join scrollback e
        | inr e ↦ elim (Bool-cases (text_eq format (codes "html"))) [
          | inl f ↦ html_format join scrollback e f
          | inr f ↦ plain_format join scrollback e f
        ]
      ]
