-- ===== src/Lib.antt =====
-- hauntty keeps terminal sessions alive behind a daemon, and lets clients attach and reattach.
--
-- The parts and how they interact. A client (internal/client, cmd/ht) dials the daemon's socket and
-- speaks the binary protocol of internal/protocol: a handshake, then frames that each hold one
-- message. The daemon (internal/daemon) keeps sessions. A session has a child process on a pty, a
-- terminal state (libghostty, in WebAssembly), and one goroutine `run` that owns the list of attached
-- clients; each client has a channel and a goroutine `writeLoop` that writes to its connection.
--
-- Which file models what:
--   Prelude           helpers that the other files share.
--   Protocol/Encoding internal/protocol/encoding.go. A `Text` is a list of bytes. An encoder appends
--                     to what was written, a decoder takes bytes off what is still to be read; an
--                     error of Go is a value of the result.
--   Protocol/Messages internal/protocol/messages.go and the message types; Requests, Responses and
--                     their children have `encode` and `decode` of each message, under the names of the
--                     Go methods (`encode_attach` for `(*Attach).encode`).
--   Protocol/Codec    internal/protocol/codec.go: `write_message`, `read_message`, the handshake.
--                     `new_message` chooses the decoder by the type byte.
--   Daemon/Resize     the sizes and the resize policies of internal/daemon/session.go,
--                     session_clients.go and internal/config/config.go.
--   Daemon/Clients    the client object and the loops over clients of session_clients.go. An object
--                     is a number, and the objects stand on a heap, as the handlers and the loop
--                     share them. A send on a closed channel and a second close set `fault`.
--   Daemon/Session    the loop `run` of internal/daemon/session_lifecycle.go. State has its variables,
--                     Steps its select: one `step` is one turn of `run`, of `feedLoop` or of a
--                     `writeLoop`, and a run is any list of events, so that every interleaving of
--                     these turns is a run. Two fields, `accepted` and `started`, are not the code's:
--                     they record what the loop took from the pty and when each client attached.
--   Daemon/Gather     `gatherPTYReads` of session_lifecycle.go, between the pty and the loop.
--   Daemon/Persist    `encodeState` and `decodeState` of internal/daemon/persist.go.
--   Daemon/Server     the saved states of internal/daemon/dead_state.go, and of server_attach.go the
--                     creation, attach and restore of sessions by name (Server/Handlers). The state files
--                     are a map by the cleaned path of a name (Server/Paths). Parameters stand for the
--                     system's calls and the state directory (`Os`), the start of a session and its
--                     answer to an attach, and what other connections do to the sessions and the files
--                     while a session starts (`World`).
--   Daemon/Connection `handleConn` of internal/daemon/server.go, as the list of calls that it makes for
--                     the messages that it reads; what handleAttach answers is a parameter.
--   Daemon/Env        the environment of a session's process, of internal/daemon/shell.go and session.go.
--   Daemon/Names      `generateUniqueName` of internal/daemon/namegen.go.
--   Daemon/Terminal   the formats of dumps and the events of keys of internal/daemon/terminal_state.go;
--                     Keyboard has the keys of libghostty/key_event.go.
--   Daemon/Persister  the saves of internal/daemon/persist.go, the shutdown of server.go and the watch of
--                     a session of server_attach.go, over the server of Daemon/Server.
--   Daemon/Lifetime   the operations of Daemon/Server and Daemon/Persister in any order, as a step relation.
--   Daemon/Startup    `New` of server.go and `ht daemon` of cmd/ht/main.go, up to the listener.
--   Daemon/Requests   the handlers of internal/daemon/server_control.go and server_inspect.go, and the
--                     reply of handleCreate. A `Host` is what they get from the sessions and the system.
--   Client/Requests   internal/client/client.go: `request` and the methods of a client that use it.
--   Client/Connect    `Connect` of client.go, and daemon_probe.go; what a dial gives is a parameter.
--   Client/Attach     internal/client/attach.go: the terminal of an attached client.
--   Client/Keys       the notation of keys and the detach key of internal/client/keys.go.
--   Config            internal/config/config.go: the record, the defaults and `LoadFrom`; what the TOML
--                     decoder makes of a file is a parameter.
--   Completion        internal/completion/completion.go: the commands and the texts that the templates of
--                     the scripts are filled with.
--   Version           version.go.
--   Command           what the commands of cmd/ht compute.
--
-- Bounds. Integers of w bits wrap (`% 2 ^ w`) where the code's arithmetic can reach the bound.
-- The channels have the code's capacities, 256 messages for a client and 64 chunks for the feed.
-- All loops are structural recursion on lists, but `decimal`, which prints a client's number: its fuel
-- is one more than the number, and each turn prints a digit; and `start` of Daemon/Gather,
-- whose fuel is the number of bytes, of which each turn but the last takes 65536 off; and
-- `suffix_search` of Daemon/Names, with one round more than there are names taken.
--
-- Not modelled: the terminal emulator, which is generated code behind libghostty (a parameter
-- `screen`, the dump after the operations on the terminal); sockets, locks, files, signals and
-- processes; the flags and the output of `ht` and the start of a daemon in the background; the
-- templates of the completion scripts; the paths of the configuration and of the socket; the raw mode
-- and the signals of a client's terminal; how the calls of many connections interleave, but as the
-- actions among the events of a session. A turn of `writeLoop` takes a message off the channel and
-- writes it in one step; a message that is under way between the two counts as written or as
-- waiting.
pub mod Prelude
pub mod Protocol
pub mod Daemon
pub mod Client
pub mod Config
pub mod Command
pub mod Completion
pub mod Keyboard
pub mod Version
