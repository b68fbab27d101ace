-- ===== src/Daemon/Connection.antt =====
-- handleConn of internal/daemon/server.go behind the check of the peer's user: the handshake, then the
-- messages of one connection, in control mode until an attach succeeds and in streaming mode after.
pub mod Detaching
pub mod ReadOnly
pub mod Version
mod Examples
use hauntty.Prelude.{
  ℕ, ◌%◌, Bool, true, false, not, List, [], ◌∷◌, ◌++◌, Option, none, some, Text, ◌==◌,
  if◌then◌else◌, length, Result, ok, err,
}
use hauntty.Protocol.Encoding.{WireError, buffer}
use hauntty.Protocol.Messages.{
  Message, Attach, create, attach, input, resize, list, kill, send, send_key, dump, kick, status,
  detach, prune,
}
use hauntty.Protocol.Codec.{protocol_version, accept_handshake, write_version_reply}
use hauntty.Daemon.Resize.{TermSize}

-- The session and the client of a connection that has attached.
pub record Attachment : Type 0 where
  pub session : ℕ
  pub client : ℕ
  pub read_only : Bool

-- A call that the loop makes: a handler of control mode, the attach with its success, and the calls of
-- the attached session.
pub data Call : Type 0 where
  handle : Message → Call
  attach_refused : Attach → Call
  attach_accepted : Attachment → Call
  send_input : ℕ → List ℕ → Call
  resize_client : Attachment → TermSize → Call
  detach_client : Attachment → Call

-- handleAttach's answer to an attach, by the number of messages that are still to come.
abbrev pub Answers : Type 0
Answers = ℕ → Attach → Option (ℕ × ℕ)

-- The messages that have a handler in control mode.
abbrev pub is_request : Message → Bool
is_request (create m) = true
is_request (list m) = true
is_request (kill m) = true
is_request (send m) = true
is_request (send_key m) = true
is_request (dump m) = true
is_request prune = true
is_request (status m) = true
is_request (kick m) = true
is_request _ = false

-- What streaming mode does with a message; `none` ends the loop.
abbrev pub streamed : Attachment → Message → Option (List Call)
streamed a (input m) = some (if a.read_only then [] else send_input a.session m.payload ∷ [])
streamed a (resize m) = some (
    if a.read_only
    then []
    else resize_client a
        (record { cols = m.cols; rows = m.rows; xpixel = m.xpixel; ypixel = m.ypixel })
      ∷ [])
streamed a _ = none

unfoldable pub stream_loop : Attachment → List Message → List Call
stream_loop a [] = detach_client a ∷ []
stream_loop a (msg ∷ msgs) =
    let rest = stream_loop a msgs in
    elim (streamed a msg) [ none ↦ detach_client a ∷ [] | some calls ↦ calls ++ rest ]

abbrev pub attachment : Attach → ℕ × ℕ → Attachment
attachment m (session, client) = record {
  session = session;
  client = client;
  read_only = m.read_only;
}

-- Behind an attach: streaming mode, or the rest of control mode.
unfoldable pub after_answer : Attach → Option (ℕ × ℕ) → List Message → List Call → List Call
unfolding stream_loop
after_answer m none msgs rest = attach_refused m ∷ rest
after_answer m (some got) msgs rest =
    attach_accepted (attachment m got) ∷ stream_loop (attachment m got) msgs

-- The messages that `ReadMessage` gives before it fails.
unfoldable pub control_loop : Answers → List Message → List Call
unfolding after_answer
control_loop answers [] = []
control_loop answers (attach m ∷ msgs) =
    after_answer m (answers (length msgs) m) msgs (control_loop answers msgs)
control_loop answers (msg ∷ msgs) =
    let rest = control_loop answers msgs in if is_request msg then handle msg ∷ rest else []

-- The bytes that answer the handshake, and the calls. A client of another version is refused.
abbrev pub Served : Type 0
Served = Result WireError (List ℕ) × List Call

unfoldable pub greet :
    Text → Answers → List Message → Result WireError ((ℕ × Text) × List ℕ) → Served
unfolding control_loop
greet revision answers msgs (err e) = (ok [], [])
greet revision answers msgs (ok ((version, client_revision), rest)) =
    if version == protocol_version
    then (write_version_reply buffer protocol_version revision [], control_loop answers msgs)
    else (write_version_reply buffer 0 [] [], [])

unfoldable pub handle_conn : Text → Answers → List Message → List ℕ → Served
unfolding greet
handle_conn revision answers msgs hello = greet revision answers msgs (accept_handshake hello)
