-- ===== src/Client/Connect/Greeted.antt =====
-- The client's greeting and the daemon's answer to it, with the bytes of both on the connection.
use hauntty.Prelude.{
  ℕ, ◌≡◌, ◌≤◌, ap, ◌∙◌, subst, arith, true, false, Bool-cases, inl, inr, List, [], append-nil, Text,
  text_eq, ◌==◌, if◌then◌else◌, Result, ok, err,
}
use hauntty.Protocol.Encoding.{WireError, buffer}
use hauntty.Protocol.Encoding.Codes.{Codes}
use hauntty.Protocol.Encoding.Primitives.{IsU8, IsShort}
use hauntty.Protocol.Codec.{protocol_version, write_version_reply, accept_handshake, handshake}
use hauntty.Protocol.Codec.Hello.{Codes-hello}
use hauntty.Daemon.Connection.{Answers, greet, handle_conn}
use hauntty.Protocol.Messages.{Message}
use hauntty.Client.Connect.{
  ConnectError, version_mismatch, mismatch, settled, connect_as, probed, probe_daemon,
}

-- What the daemon writes before it serves the connection; a failure to write ends it.
abbrev written : Result WireError (List ℕ) → List ℕ
written (err e) = []
written (ok bytes) = bytes

-- The daemon's end of a connection.
unfoldable pub daemon_end : Text → Answers → List Message → List ℕ → List ℕ
daemon_end revision answers msgs hello = written ((handle_conn revision answers msgs hello).0)

read-hello :
    {version : ℕ} {revision : Text}
    (c : Codes (write_version_reply buffer version revision) accept_handshake (version, revision))
    → accept_handshake c.wire ≡ ok ((version, revision), [])
read-hello {version} {revision} c =
    subst (λ bs. accept_handshake bs ≡ ok ((version, revision), [])) (append-nil c.wire)
      (c.reads [])

-- The client that has sent its greeting and got the one that `back` encodes.
settled-reply :
    {version accepted : ℕ} {revision server_revision : Text}
    (c : Codes (write_version_reply buffer version revision) accept_handshake (version, revision))
    (back : Codes
      (write_version_reply buffer accepted server_revision)
      accept_handshake
      (accepted, server_revision))
    → settled version revision (handshake buffer version revision [] back.wire) ≡ (
        if accepted == version
        then ok []
        else err (mismatch version revision accepted server_revision))
unfolding settled handshake
settled-reply c back = rw (c.writes [], read-hello back)

-- The bytes of the daemon's greeting.
daemon_end-accepted :
    (server_revision : Text) (answers : Answers) (msgs : List Message) {version : ℕ}
    {revision : Text}
    (c : Codes (write_version_reply buffer version revision) accept_handshake (version, revision))
    (back : Codes
      (write_version_reply buffer protocol_version server_revision)
      accept_handshake
      (protocol_version, server_revision))
    → (version == protocol_version) ≡ true
    → daemon_end server_revision answers msgs c.wire ≡ back.wire
unfolding daemon_end handle_conn greet
daemon_end-accepted server_revision answers msgs {version} c back e =
    rw (read-hello c, greet, e, back.writes [])

daemon_end-refused :
    (server_revision : Text) (answers : Answers) (msgs : List Message) {version : ℕ}
    {revision : Text}
    (c : Codes (write_version_reply buffer version revision) accept_handshake (version, revision))
    (back : Codes (write_version_reply buffer 0 []) accept_handshake (0, []))
    → (version == protocol_version) ≡ false
    → daemon_end server_revision answers msgs c.wire ≡ back.wire
unfolding daemon_end handle_conn greet
daemon_end-refused server_revision answers msgs {version} c back e =
    rw (read-hello c, greet, e, back.writes [])

abbrev settles : ℕ → Text → List ℕ → Result ConnectError (List ℕ)
settles version revision peer = settled version revision (handshake buffer version revision [] peer)

refused-mismatch :
    (version : ℕ) (revision : Text)
    → 1 ≤ version
    → (version == protocol_version) ≡ false
    → (if◌then◌else◌ {A = Result ConnectError (List ℕ)}
        (0 == version)
        (ok [])
        (err (mismatch version revision 0 [])))
      ≡ (if version == protocol_version then ok [] else err (version_mismatch 0 version))
unfolding mismatch text_eq
refused-mismatch version revision positive e = ground arith

-- Between a client and the daemon, each of whose greetings fits on the wire: a client of the daemon's
-- protocol version, which is not 0, is connected, whatever the two revisions are, and one of another
-- version gets the mismatch of the versions, with version 0 accepted, and never that of the revisions.
pub connect_as-handle_conn :
    (version : ℕ) (revision server_revision : Text) (answers : Answers) (msgs : List Message)
    → 1 ≤ version
    → IsU8 version
    → IsShort revision
    → IsShort server_revision
    → connect_as version revision (ok (daemon_end server_revision answers msgs))
      ≡ (if version == protocol_version then ok [] else err (version_mismatch 0 version))
unfolding connect_as
connect_as-handle_conn version revision server_revision answers msgs positive v r r' =
    let c = Codes-hello version revision v r in
    let same = Codes-hello protocol_version server_revision (omega arith) r' in
    let other = Codes-hello 0 [] (omega arith) (omega arith) in
    rw (c.writes []) (elim (Bool-cases (version == protocol_version)) [
      | inl e ↦
          ap (settles version revision) (daemon_end-accepted server_revision answers msgs c same e)
          ∙ (settled-reply c same ∙ ground arith)
      | inr e ↦
          ap (settles version revision) (daemon_end-refused server_revision answers msgs c other e)
          ∙ (settled-reply c other ∙ refused-mismatch version revision positive e)
    ])

pub probe_daemon-handle_conn :
    (revision server_revision : Text) (answers : Answers) (msgs : List Message)
    → IsShort revision
    → IsShort server_revision
    → probe_daemon revision (ok (daemon_end server_revision answers msgs)) ≡ ok true
unfolding probe_daemon
probe_daemon-handle_conn revision server_revision answers msgs r r' = ap probed (
    connect_as-handle_conn protocol_version revision server_revision answers msgs (omega arith)
      (omega arith) r r')
