-- ===== src/Client/Connect/Examples.antt =====
-- A client of an older version, and the dials that no daemon answers.
use hauntty.Prelude.{◌≡◌, refl, arith, false, [], some, codes, if◌then◌else◌, ◌==◌, Text, ok, err}
use hauntty.Protocol.Codec.{protocol_version}
use hauntty.Daemon.Connection.{Answers}
use hauntty.Client.Connect.{
  dial_failed, not_found, refused, other, version_mismatch, connect_as, probe_daemon,
}
use hauntty.Client.Connect.Greeted.{daemon_end, connect_as-handle_conn}

abbrev answers : Answers
answers left m = some (1, 7)

abbrev older : Text
older = codes "a1b2c3"

abbrev newer : Text
newer = codes "d4e5f6-dirty"

connect_as-handle_conn_example :
    connect_as 7 older (ok (daemon_end newer answers []))
    ≡ (if 7 == protocol_version then ok [] else err (version_mismatch 0 7))
connect_as-handle_conn_example =
    connect_as-handle_conn 7 older newer answers [] (omega arith) (omega arith) (omega arith)
      (omega arith)

no_daemon :
    (probe_daemon newer (err not_found) ≡ ok false)
    × (probe_daemon newer (err refused) ≡ ok false)
    × (probe_daemon newer (err (other (codes "EACCES")))
        ≡ err (dial_failed (other (codes "EACCES"))))
unfolding probe_daemon
no_daemon = (refl, refl, refl)
