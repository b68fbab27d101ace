-- ===== src/Command.antt =====
-- What the commands of cmd/ht/main.go and completion.go compute: rows and texts, the format of a dump
-- request, the environment that is forwarded, the requests of `ht send`, and the polls of `ht wait`.
-- The environment, the clock and the time zone are parameters.
pub mod Environment
pub mod Formats
mod Examples
use hauntty.Prelude.{
  ℕ, zero, suc, ◌+◌, ◌/◌, ◌%◌, Bool, true, false, not, ◌&&◌, List, [], ◌∷◌, ◌++◌, Option, none,
  some, Text, text_eq, codes, ℤ, pos, negsuc, bit_or, ltb, ◌==◌, if◌then◌else◌, drop, length,
  Result, ok, err,
}
use hauntty.Protocol.Messages.{Message}
use hauntty.Daemon.Session.Decimal.{decimal}
use hauntty.Daemon.Terminal.{dump_flag_unwrap, dump_flag_scrollback}
use hauntty.Daemon.Env.{has_prefix, key_prefix}
use hauntty.Daemon.Requests.Inspect.{state_running, state_dead}
use hauntty.Client.Keys.{KeyInput, KeyError, parse_key_notation}
use hauntty.Client.Requests.{Session}
use hauntty.Client.Attach.{index, is_nil}

-- A directory below `home`, or with its text as a prefix, is shown from `~` (126).
unfoldable pub shorten_home : Text → Text → Text
shorten_home home cwd =
    if not (is_nil home) && has_prefix home cwd then 126 ∷ drop (length home) cwd else cwd

unfoldable pub format_session_pid : ℕ → Text
format_session_pid pid = if pid == 0 then codes "-" else decimal pid

-- `format_time` is the local time as text.
unfoldable pub format_session_timestamp : (ℕ → Text) → ℕ → Text
format_session_timestamp format_time ts = if ts == 0 then codes "-" else format_time ts

unfoldable pub session_row : (ℕ → Text) → Text → Session → List Text
session_row format_time home s =
    s.name
    ∷ s.state
    ∷ (decimal s.cols ++ (codes "x" ++ decimal s.rows))
    ∷ shorten_home home s.cwd
    ∷ format_session_pid s.pid
    ∷ format_session_timestamp format_time s.created_at
    ∷ format_session_timestamp format_time s.saved_at
    ∷ []

-- The loop of sessionListRows, below the heading.
unfoldable pub session_rows : (ℕ → Text) → Bool → Text → List Session → List (List Text)
session_rows format_time show_all home [] = []
session_rows format_time show_all home (s ∷ sessions) =
    let rest = session_rows format_time show_all home sessions in
    if not show_all && text_eq s.state state_dead
    then rest
    else session_row format_time home s ∷ rest

abbrev pub list_heading : List Text
list_heading =
    codes "NAME"
    ∷ codes "STATE"
    ∷ codes "SIZE"
    ∷ codes "CWD"
    ∷ codes "PID"
    ∷ codes "CREATED"
    ∷ codes "SAVED"
    ∷ []

unfoldable pub session_list_rows : (ℕ → Text) → List Session → Bool → Text → List (List Text)
unfolding session_rows
session_list_rows format_time sessions show_all home =
    list_heading ∷ session_rows format_time show_all home sessions

unfoldable pub format_uptime : ℕ → Text
format_uptime seconds =
    let h = seconds / 3600 in
    let m = seconds / 60 % 60 in
    let s = seconds % 60 in
    if ltb 0 h
    then decimal h ++ (codes "h " ++ (decimal m ++ codes "m"))
    else if ltb 0 m
    then decimal m ++ (codes "m " ++ (decimal s ++ codes "s"))
    else decimal s ++ codes "s"

abbrev pub format_value : Text → ℕ
format_value format =
    if text_eq format (codes "vt") then 1 else if text_eq format (codes "html") then 2 else 0

unfoldable pub dump_request_format : Text → Bool → Bool → ℕ
dump_request_format format join scrollback =
    let value = format_value format in
    let joined = if join then bit_or value dump_flag_unwrap else value in
    if scrollback then bit_or joined dump_flag_scrollback else joined

abbrev pub always_forward_env : List Text
always_forward_env = codes "TERM" ∷ codes "SHELL" ∷ []

-- One loop of collectForwardedEnv; `lookup` is os.LookupEnv.
unfoldable pub forwarded_env : (Text → Option Text) → List Text → List Text
forwarded_env lookup [] = []
forwarded_env lookup (key ∷ keys) = elim (lookup key) [
  | none ↦ forwarded_env lookup keys
  | some val ↦ (key_prefix key ++ val) ∷ forwarded_env lookup keys
]

unfoldable pub collect_forwarded_env : List Text → (Text → Option Text) → List Text
unfolding forwarded_env
collect_forwarded_env extra lookup =
    forwarded_env lookup always_forward_env ++ forwarded_env lookup extra

-- The requests of `ht send` that succeed, and the key notation that ends it.
unfoldable pub send_keys : Text → List Text → List Message × Option KeyError
send_keys name [] = ([], none)
send_keys name (key ∷ keys) = elim (parse_key_notation key) [
  | err e ↦ ([], some e)
  | ok ki ↦ (
    Message.send_key (record { name = name; key = ki.code; mods = ki.mods })
        ∷ (send_keys name keys).0,
    (send_keys name keys).1,
  )
]

unfoldable pub send_requests : Text → List Text → List Text → List Message × Option KeyError
send_requests name [] keys = send_keys name keys
send_requests name (text ∷ texts) keys = (
  Message.send (record { name = name; payload = text }) ∷ (send_requests name texts keys).0,
  (send_requests name texts keys).1,
)

-- SendCmd.Run, if every request succeeds: `none` is the error of a call without input.
unfoldable pub send_command : Text → List Text → List Text → Option (List Message × Option KeyError)
unfolding send_requests
send_command name [] [] = none
send_command name texts keys = some (send_requests name texts keys)

-- strings.Split by a newline, and a line of it.
unfoldable pub lines : Text → Text → List Text
lines line [] = line ∷ []
lines line (c ∷ content) =
    if c == 10 then line ∷ lines [] content else lines (line ++ c ∷ []) content

unfoldable pub line_at : ℕ → List Text → Text
line_at row [] = []
line_at zero (line ∷ rest) = line
line_at (suc row) (line ∷ rest) = line_at row rest

unfoldable pub wait_content : Text → ℤ → Text
unfolding lines line_at
wait_content content (negsuc n) = content
wait_content content (pos row) = line_at row (lines [] content)

-- A dump, or an error of it; and whether it is later than the deadline behind it.
pub record Poll : Type 0 where
  pub dump : Option Text
  pub late : Bool

-- The exit codes of `ht wait`.
pub data Waited : Type 0 where
  matched timed_out failed : Waited

-- What a poll ends with, if it ends the loop.
abbrev pub poll_result : (Text → Bool) → ℤ → Option Text → Bool → Option Waited
poll_result match row none late = some failed
poll_result match row (some dump) late =
    if match (wait_content dump row) then some matched else if late then some timed_out else none

-- The loop of WaitCmd.Run; `none` is a loop that has not ended by the last poll.
unfoldable pub wait_run : (Text → Bool) → ℤ → List Poll → Option Waited
wait_run match row [] = none
wait_run match row (poll ∷ polls) = elim (poll_result match row poll.dump poll.late) [
  | some waited ↦ some waited
  | none ↦ wait_run match row polls
]

abbrev pub is_found : Option ℕ → Bool
is_found none = false
is_found (some i) = true

-- compileWaitMatcher without a regular expression: strings.Contains.
abbrev pub contains_text : Text → Text → Bool
contains_text pattern s = is_found (index pattern s)

unfoldable pub daemon_start_args : Text → Bool → List Text
daemon_start_args socket_path auto_exit =
    let socket = if is_nil socket_path then [] else codes "--socket" ∷ socket_path ∷ [] in
    codes "daemon" ∷ (if auto_exit then codes "--auto-exit" ∷ socket else socket)

unfoldable pub include_completion_session : Text → Session → Bool
include_completion_session topic session =
    if text_eq topic (codes "live_sessions")
    then text_eq session.state state_running
    else if text_eq topic (codes "dead_sessions")
    then text_eq session.state state_dead
    else if text_eq topic (codes "dumpable_sessions")
    then true
    else text_eq topic (codes "sessions")

unfoldable pub completion_topic_names : Text → List Session → List Text
unfolding include_completion_session
completion_topic_names topic [] = []
completion_topic_names topic (session ∷ sessions) =
    let rest = completion_topic_names topic sessions in
    if include_completion_session topic session then session.name ∷ rest else rest
