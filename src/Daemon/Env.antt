-- ===== src/Daemon/Env.antt =====
-- mergeEnv, getEnv and setEnv of internal/daemon/shell.go, and resolveShellCommand of session.go: the
-- environment of a session's process, a list of `key=value`. A slice that a function changes in place
-- is its result here; the callers use it only from there on.
pub mod Laws
use hauntty.Prelude.{
  ℕ, Bool, true, false, List, [], ◌∷◌, ◌++◌, Text, codes, ltb, ◌==◌, if◌then◌else◌, length, drop,
  take, text_eq,
}

-- strings.HasPrefix, with the prefix first.
abbrev pub has_prefix : Text → Text → Bool
has_prefix [] s = true
has_prefix (p ∷ prefix) [] = false
has_prefix (p ∷ prefix) (c ∷ s) = if p == c then has_prefix prefix s else false

-- What stands before the first `=` (61), or the whole string: strings.Cut.
abbrev pub cut_key : Text → Text
cut_key [] = []
cut_key (c ∷ s) = if c == 61 then [] else c ∷ cut_key s

abbrev pub key_prefix : Text → Text
key_prefix key = key ++ 61 ∷ []

unfoldable pub get_env : List Text → Text → Text
get_env [] key = []
get_env (e ∷ env) key =
    if has_prefix (key_prefix key) e then drop (length (key_prefix key)) e else get_env env key

-- The first entry with the key is replaced, or the entry is appended.
unfoldable pub replace_entry : List Text → Text → Text → List Text
replace_entry [] prefix entry = entry ∷ []
replace_entry (e ∷ env) prefix entry =
    if has_prefix prefix e then entry ∷ env else e ∷ replace_entry env prefix entry

unfoldable pub set_env : List Text → Text → Text → List Text
unfolding replace_entry
set_env env key value = replace_entry env (key_prefix key) (key_prefix key ++ value)

unfoldable pub merge_env : List Text → List Text → List Text
unfolding replace_entry
merge_env merged [] = merged
merge_env merged (ov ∷ overrides) =
    merge_env (replace_entry merged (key_prefix (cut_key ov)) ov) overrides

-- `SHELL=`, and the first entry that has a value behind it.
unfoldable pub shell_of : List Text → List Text → List Text
shell_of [] fallback = fallback
shell_of (e ∷ env) fallback =
    if ltb 6 (length e)
    then if text_eq (take 6 e) (codes "SHELL=") then drop 6 e ∷ [] else shell_of env fallback
    else shell_of env fallback

-- `daemon_shell` is the daemon's own variable SHELL.
abbrev pub fallback_shell : Text → List Text
fallback_shell [] = codes "/bin/sh" ∷ []
fallback_shell (c ∷ shell) = (c ∷ shell) ∷ []

unfoldable pub resolve_shell_command : Text → List Text → List Text → List Text
unfolding shell_of
resolve_shell_command daemon_shell [] env = shell_of env (fallback_shell daemon_shell)
resolve_shell_command daemon_shell (c ∷ command) env = c ∷ command
