-- ===== src/Client/Connect.antt =====
-- Opening a connection to the daemon: `Connect` of internal/client/client.go, and ProbeDaemon and
-- DaemonUnavailable of internal/client/daemon_probe.go. What `net.Dial` gives is an argument: an
-- error, or the function from the bytes that are sent to the bytes that come back.
pub mod Greeted
pub mod Builds
mod Examples
use hauntty.Prelude.{
  ℕ, Bool, true, false, not, ◌&&◌, List, [], Text, text_eq, ◌==◌, if◌then◌else◌, Result, ok, err,
}
use hauntty.Protocol.Encoding.{WireError, buffer}
use hauntty.Protocol.Codec.{protocol_version, write_version_reply, handshake}

-- The error numbers of a dial that the client looks at, and the others.
pub data DialError : Type 0 where
  not_found refused : DialError
  other : Text → DialError

pub data ConnectError : Type 0 where
  dial_failed : DialError → ConnectError
  handshake_failed : WireError → ConnectError
  -- The revisions of the client and of the server.
  revision_mismatch : Text → Text → ConnectError
  -- The version that was accepted and the one that was expected.
  version_mismatch : ℕ → ℕ → ConnectError

-- The daemon accepted another version.
unfoldable pub mismatch : ℕ → Text → ℕ → Text → ConnectError
unfolding text_eq
mismatch version revision accepted server_revision =
    if not (text_eq server_revision []) && not (text_eq server_revision revision)
    then revision_mismatch revision server_revision
    else version_mismatch accepted version

-- Behind the handshake; `incoming` holds what follows the daemon's greeting.
unfoldable pub settled :
    ℕ → Text → Result WireError ((ℕ × Text) × List ℕ × List ℕ) → Result ConnectError (List ℕ)
unfolding mismatch
settled version revision (err e) = err (handshake_failed e)
settled version revision (ok ((accepted, server_revision), sent, incoming)) =
    if accepted == version
    then ok incoming
    else err (mismatch version revision accepted server_revision)

abbrev pub greeted :
    ℕ → Text → (List ℕ → List ℕ) → Result WireError (List ℕ) → Result ConnectError (List ℕ)
greeted version revision peer (err e) = err (handshake_failed e)
greeted version revision peer (ok sent) =
    settled version revision (handshake buffer version revision [] (peer sent))

-- `Connect` of a build with this protocol version and this revision.
unfoldable pub connect_as :
    ℕ → Text → Result DialError (List ℕ → List ℕ) → Result ConnectError (List ℕ)
unfolding settled
connect_as version revision (err e) = err (dial_failed e)
connect_as version revision (ok peer) =
    greeted version revision peer (write_version_reply buffer version revision [])

abbrev pub connect : Text → Result DialError (List ℕ → List ℕ) → Result ConnectError (List ℕ)
connect revision dialled = connect_as protocol_version revision dialled

-- The error of a dial that no daemon answers; no error of the handshake carries such a number.
abbrev pub daemon_unavailable : ConnectError → Bool
daemon_unavailable (dial_failed not_found) = true
daemon_unavailable (dial_failed refused) = true
daemon_unavailable _ = false

abbrev pub probed : {A : Type 0} → Result ConnectError A → Result ConnectError Bool
probed (ok c) = ok true
probed (err e) = if daemon_unavailable e then ok false else err e

unfoldable pub probe_daemon : Text → Result DialError (List ℕ → List ℕ) → Result ConnectError Bool
unfolding connect_as
probe_daemon revision dialled = probed (connect revision dialled)
