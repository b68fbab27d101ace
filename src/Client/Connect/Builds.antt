-- ===== src/Client/Connect/Builds.antt =====
-- `Connect` between two builds, each with the revision of its `Version`.
use hauntty.Prelude.{◌≡◌, arith, true, List, [], Option, ok}
use hauntty.Protocol.Encoding.Primitives.{IsShort}
use hauntty.Protocol.Codec.{protocol_version}
use hauntty.Protocol.Messages.{Message}
use hauntty.Daemon.Connection.{Answers}
use hauntty.Version.{BuildSettings, version, version-length}
use hauntty.Client.Connect.{connect, probe_daemon}
use hauntty.Client.Connect.Greeted.{daemon_end, connect_as-handle_conn, probe_daemon-handle_conn}

module _ (mine theirs : Option BuildSettings) (answers : Answers) (msgs : List Message) where
  IsShort-version : (info : Option BuildSettings) → IsShort (version info)
  IsShort-version info = omega (arith, version-length info)

  pub connect-version :
      connect (version mine) (ok (daemon_end (version theirs) answers msgs)) ≡ ok []
  connect-version =
      connect_as-handle_conn protocol_version (version mine) (version theirs) answers msgs
        (omega arith) (omega arith) (IsShort-version mine) (IsShort-version theirs)

  pub probe_daemon-version :
      probe_daemon (version mine) (ok (daemon_end (version theirs) answers msgs)) ≡ ok true
  probe_daemon-version =
      probe_daemon-handle_conn (version mine) (version theirs) answers msgs (IsShort-version mine)
        (IsShort-version theirs)
