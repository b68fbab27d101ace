-- ===== src/Client/Requests/Answered.antt =====
-- A request of the client against the daemon's answer, with the bytes of both on the connection.
use hauntty.Prelude.{
  ℕ, ◌≡◌, ap, subst, ◌∙◌, List, [], append-nil, Option, none, some, Text, Result, ok, err,
}
use hauntty.Protocol.Encoding.{WireError, buffer}
use hauntty.Protocol.Encoding.Codes.{Codes}
use hauntty.Protocol.Messages.{Message}
use hauntty.Protocol.Codec.Framing.{read_message-write_message}
use hauntty.Protocol.Codec.Streams.{Sendable}
use hauntty.Protocol.Codec.{write_message, read_message}
use hauntty.Daemon.Server.{Server}
use hauntty.Daemon.Requests.{Host, Handled}
use hauntty.Daemon.Requests.Answers.{answer}
use hauntty.Client.Requests.{Assertion, response, received, exchanged, request}

-- What the daemon writes; a failure to write is logged.
abbrev pub written : Result WireError (List ℕ) → List ℕ
written (err e) = []
written (ok bytes) = bytes

abbrev pub reply_bytes : Option Handled → List ℕ
reply_bytes none = []
reply_bytes (some handled) = written (write_message buffer handled.reply [])

abbrev pub read_and_answer : Host → Server → Result WireError (Message × List ℕ) → List ℕ
read_and_answer h s (err e) = []
read_and_answer h s (ok (msg, rest)) = reply_bytes (answer h msg s)

-- The daemon's end of a connection, for one request.
unfoldable pub serve : Host → Server → List ℕ → List ℕ
serve h s bytes = read_and_answer h s (read_message bytes)

Sendable-Codes : (m : Message) → Sendable m → Codes (write_message buffer m) read_message m
Sendable-Codes m s = read_message-write_message m s.fits s.frame s.encoded s.within

-- What was written to an empty buffer is read back.
read-wire :
    (m : Message) (c : Codes (write_message buffer m) read_message m)
    → read_message c.wire ≡ ok (m, [])
read-wire m c = subst (λ bs. read_message bs ≡ ok (m, [])) (append-nil c.wire) (c.reads [])

written-serve :
    (h : Host) (s : Server) (msg : Message) (handled : Handled)
    (c : Codes (write_message buffer msg) read_message msg)
    (back : Codes (write_message buffer handled.reply) read_message handled.reply)
    → answer h msg s ≡ some handled
    → serve h s c.wire ≡ back.wire
unfolding serve
written-serve h s msg handled c back e =
    ap (read_and_answer h s) (read-wire msg c) ∙ (ap reply_bytes e ∙ ap written (back.writes []))

-- If a request and the daemon's reply to it fit on the wire, the client gets over the connection what
-- the reply stands for, with no error of the transport.
pub request-answer :
    {T : Type 0} (asserted : Assertion T) (op : Text) (h : Host) (s : Server) (msg : Message)
    (handled : Handled)
    → answer h msg s ≡ some handled
    → Sendable msg
    → Sendable handled.reply
    → request asserted op msg (serve h s) ≡ response asserted op handled.reply
unfolding request received
request-answer asserted op h s msg handled e sendable replied =
    let c = Sendable-Codes msg sendable in
    let back = Sendable-Codes handled.reply replied in
    ap (λ r. exchanged asserted op r (serve h s)) (c.writes [])
    ∙ ap (received asserted op)
        (ap read_message (written-serve h s msg handled c back e) ∙ read-wire handled.reply back)
