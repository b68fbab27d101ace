-- ===== src/Command/Examples.antt =====
-- Commands at concrete inputs.
use hauntty.Prelude.{
  ◌≡◌, refl, [], ◌∷◌, ◌++◌, true, false, Option, none, some, Text, text_eq, codes, if◌then◌else◌,
  pos,
}
use hauntty.Daemon.Names.{listed}
use hauntty.Daemon.Terminal.{terminal_dump_format}
use hauntty.Daemon.Env.{get_env, merge_env}
use hauntty.Client.Attach.{index, starts_with}
use hauntty.Command.{
  shorten_home, always_forward_env, collect_forwarded_env, dump_request_format, wait_content, lines,
  line_at, wait_run, contains_text, matched,
}
use hauntty.Command.Environment.{value_or, get_env-collect_forwarded_env}
use hauntty.Command.Formats.{asked_format, terminal_dump_format-dump_request_format}

-- A directory beside the home directory is shortened too.
sibling_of_home : shorten_home (codes "/home/al") (codes "/home/alice") ≡ codes "~ice"
unfolding shorten_home
sibling_of_home = refl

abbrev lookup : Text → Option Text
lookup key = if text_eq key (codes "TERM") then some (codes "xterm") else none

get_env-collect_forwarded_env_example :
    get_env
      (merge_env (codes "TERM=dumb" ∷ []) (collect_forwarded_env (codes "LANG" ∷ []) lookup))
      (codes "TERM")
    ≡ (if listed (codes "TERM") (always_forward_env ++ codes "LANG" ∷ [])
        then value_or lookup
            (lookup (codes "TERM"))
            (get_env (codes "TERM=dumb" ∷ []) (codes "TERM"))
        else get_env (codes "TERM=dumb" ∷ []) (codes "TERM"))
get_env-collect_forwarded_env_example =
    get_env-collect_forwarded_env lookup (codes "TERM=dumb" ∷ []) (codes "LANG" ∷ []) (codes "TERM")
      (refl, (refl, (refl, (refl, tt))))
      (
        (refl, (refl, (refl, (refl, tt)))),
        ((refl, (refl, (refl, (refl, (refl, tt))))), ((refl, (refl, (refl, (refl, tt)))), tt)),
      )

terminal_dump_format-dump_request_format_example :
    terminal_dump_format (dump_request_format (codes "vt") true false)
    ≡ asked_format (codes "vt") true false
terminal_dump_format-dump_request_format_example =
    terminal_dump_format-dump_request_format (codes "vt") true false

-- The second dump matches, in its second row.
waits :
    wait_run (contains_text (codes "ok")) (pos 1) (
      record { dump = some (codes "a"); late = false }
      ∷ record { dump = some (codes "a" ++ 10 ∷ codes "ok"); late = true }
      ∷ [])
    ≡ some matched
unfolding wait_run wait_content lines line_at index starts_with
waits = refl
