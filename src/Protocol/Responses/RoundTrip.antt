-- ===== src/Protocol/Responses/RoundTrip.antt =====
-- Each response is read back as it was written, when its fields fit their widths on the wire.
use hauntty.Prelude.{
  List, [], ◌∷◌, Option, none, some, length, All, le→not-ltb, sym, refl, bind-ok, bind_assoc, arith,
}
use hauntty.Protocol.Encoding.{buffer, max_frame_size, read_u8, read_times, ◌>>=◌}
use hauntty.Protocol.Encoding.Codes.{Codes, Codes-seq, Codes-map, Codes-nothing, Codes-eq}
use hauntty.Protocol.Encoding.Primitives.{
  Codes-length32, Codes-u8, Codes-u16, Codes-u32, Codes-i32, Codes-bool, Codes-string, Codes-bytes,
}
use hauntty.Protocol.Messages.{
  SessionClient, Session, DaemonStatus, SessionStatus, Sessions, StatusResponse, ErrorReply, Output,
  Created, Attached, Exited, DumpResponse, PruneResponse, ClientsChanged,
}
use hauntty.Protocol.Responses.Encode.{
  encode_session_client, encode_each_session_client, encode_session_clients, encode_session,
  encode_each_session, encode_sessions, encode_daemon_status, encode_session_status,
  encode_optional_session, encode_status_response, encode_error, encode_output, encode_created,
  encode_attached, encode_exited, encode_dump_response, encode_prune_response,
  encode_clients_changed,
}
use hauntty.Protocol.Responses.Decode.{
  decode_session_client, read_clients, decode_session_clients, decode_session, read_sessions,
  decode_sessions, decode_daemon_status, decode_session_status, read_optional_session,
  decode_status_response, decode_error, decode_output, decode_created, decode_attached,
  decode_exited, decode_dump_response, decode_prune_response, decode_clients_changed,
}
use hauntty.Protocol.Responses.Fits.{
  SessionClientFits, AreSessionClients, SessionFits, SessionsFits, DaemonStatusFits,
  SessionStatusFits, OptionalFits, StatusResponseFits, ErrorReplyFits, OutputFits, CreatedFits,
  AttachedFits, ExitedFits, DumpResponseFits, PruneResponseFits, ClientsChangedFits,
}

Codes-session_client :
    {m : SessionClient}
    → SessionClientFits m
    → Codes (encode_session_client buffer m) decode_session_client m
unfolding encode_session_client decode_session_client
Codes-session_client h =
    Codes-seq _ (Codes-string h.client_id)
      (Codes-seq _ Codes-bool (Codes-map _ (Codes-string h.version)))

Codes-each_session_client :
    (xs : List SessionClient)
    → All SessionClientFits xs
    → Codes (encode_each_session_client buffer xs) (read_times (length xs) decode_session_client) xs
unfolding encode_each_session_client read_times
Codes-each_session_client [] h = Codes-nothing []
Codes-each_session_client (x ∷ xs) h =
    Codes-seq _ (Codes-session_client h.0) (Codes-map (◌∷◌ x) (Codes-each_session_client xs h.1))

Codes-clients :
    (xs : List SessionClient)
    → AreSessionClients xs
    → Codes (encode_each_session_client buffer xs) (read_clients (length xs)) xs
unfolding read_clients
Codes-clients xs h =
    rw (le→not-ltb max_frame_size (length xs) h.0) (Codes-each_session_client xs h.1)

Codes-session_clients :
    {xs : List SessionClient}
    → AreSessionClients xs
    → Codes (encode_session_clients buffer xs) decode_session_clients xs
unfolding encode_session_clients decode_session_clients
Codes-session_clients {xs} h =
    Codes-seq read_clients (Codes-length32 (length xs) h.0) (Codes-clients xs h)

pub Codes-error : {m : ErrorReply} → ErrorReplyFits m → Codes (encode_error buffer m) decode_error m
unfolding encode_error decode_error
Codes-error h = Codes-map _ (Codes-string h.message)

pub Codes-output : {m : Output} → OutputFits m → Codes (encode_output buffer m) decode_output m
unfolding encode_output decode_output
Codes-output h = Codes-map _ (Codes-bytes h.payload)

pub Codes-created : {m : Created} → CreatedFits m → Codes (encode_created buffer m) decode_created m
unfolding encode_created decode_created
Codes-created h = Codes-seq _ (Codes-string h.name) (Codes-map _ (Codes-u32 h.pid))

pub Codes-attached :
    {m : Attached} → AttachedFits m → Codes (encode_attached buffer m) decode_attached m
unfolding encode_attached decode_attached
Codes-attached h = Codes-seq _ (Codes-string h.name) (
    Codes-seq _ (Codes-u32 h.pid) (
      Codes-seq _ (Codes-string h.client_id) (
        Codes-seq _ (Codes-u16 h.cols) (
          Codes-seq _ (Codes-u16 h.rows) (
            Codes-seq _ (Codes-bytes h.screen_dump) (
              Codes-seq _ (Codes-u32 h.cursor_row) (
                Codes-seq _ (Codes-u32 h.cursor_col)
                  (Codes-seq _ Codes-bool (Codes-map _ Codes-bool)))))))))

pub Codes-exited : {m : Exited} → ExitedFits m → Codes (encode_exited buffer m) decode_exited m
unfolding encode_exited decode_exited
Codes-exited h = Codes-map _ (Codes-i32 h.exit_code)

pub Codes-dump_response :
    {m : DumpResponse}
    → DumpResponseFits m
    → Codes (encode_dump_response buffer m) decode_dump_response m
unfolding encode_dump_response decode_dump_response
Codes-dump_response h = Codes-map _ (Codes-bytes h.payload)

pub Codes-prune_response :
    {m : PruneResponse}
    → PruneResponseFits m
    → Codes (encode_prune_response buffer m) decode_prune_response m
unfolding encode_prune_response decode_prune_response
Codes-prune_response h = Codes-map _ (Codes-u32 h.count)

pub Codes-clients_changed :
    {m : ClientsChanged}
    → ClientsChangedFits m
    → Codes (encode_clients_changed buffer m) decode_clients_changed m
unfolding encode_clients_changed decode_clients_changed
Codes-clients_changed h =
    Codes-seq _ (Codes-u16 h.count)
      (Codes-seq _ (Codes-u16 h.cols) (Codes-map _ (Codes-u16 h.rows)))

Codes-session : {m : Session} → SessionFits m → Codes (encode_session buffer m) decode_session m
unfolding encode_session decode_session
Codes-session h = Codes-seq _ (Codes-string h.name) (
    Codes-seq _ (Codes-string h.state) (
      Codes-seq _ (Codes-u16 h.cols) (
        Codes-seq _ (Codes-u16 h.rows) (
          Codes-seq _ (Codes-u32 h.pid) (
            Codes-seq _ (Codes-u32 h.created_at) (
              Codes-seq _ (Codes-u32 h.saved_at) (
                Codes-seq _ (Codes-string h.cwd)
                  (Codes-map _ (Codes-session_clients h.clients)))))))))

Codes-each_session :
    (xs : List Session)
    → All SessionFits xs
    → Codes (encode_each_session buffer xs) (read_times (length xs) decode_session) xs
unfolding encode_each_session read_times
Codes-each_session [] h = Codes-nothing []
Codes-each_session (x ∷ xs) h =
    Codes-seq _ (Codes-session h.0) (Codes-map (◌∷◌ x) (Codes-each_session xs h.1))

Codes-session_list :
    (m : Sessions)
    → SessionsFits m
    → Codes (encode_each_session buffer m.sessions) (read_sessions (length m.sessions)) m.sessions
unfolding read_sessions
Codes-session_list m h =
    rw (le→not-ltb max_frame_size (length m.sessions) h.0) (Codes-each_session m.sessions h.1)

pub Codes-sessions :
    {m : Sessions} → SessionsFits m → Codes (encode_sessions buffer m) decode_sessions m
unfolding encode_sessions decode_sessions
Codes-sessions {m} h =
    Codes-seq _ (Codes-length32 (length m.sessions) h.0) (Codes-map _ (Codes-session_list m h))

Codes-daemon_status :
    {m : DaemonStatus}
    → DaemonStatusFits m
    → Codes (encode_daemon_status buffer m) decode_daemon_status m
unfolding encode_daemon_status decode_daemon_status
Codes-daemon_status h = Codes-seq _ (Codes-u32 h.pid) (
    Codes-seq _ (Codes-u32 h.uptime) (
      Codes-seq _ (Codes-string h.socket_path) (
        Codes-seq _ (Codes-u32 h.running_count)
          (Codes-seq _ (Codes-u32 h.dead_count) (Codes-map _ (Codes-string h.version))))))

Codes-session_status :
    {m : SessionStatus}
    → SessionStatusFits m
    → Codes (encode_session_status buffer m) decode_session_status m
unfolding encode_session_status decode_session_status
Codes-session_status h = Codes-seq _ (Codes-string h.name) (
    Codes-seq _ (Codes-string h.state) (
      Codes-seq _ (Codes-u16 h.cols) (
        Codes-seq _ (Codes-u16 h.rows) (
          Codes-seq _ (Codes-u32 h.pid)
            (Codes-seq _ (Codes-string h.cwd) (Codes-map _ (Codes-session_clients h.clients)))))))

-- The flag byte with the session behind it.
Codes-flag :
    (o : Option SessionStatus)
    → OptionalFits o
    → Codes (encode_optional_session buffer o) (read_u8 >>= read_optional_session) o
unfolding encode_optional_session read_optional_session
Codes-flag none h =
    Codes-eq (λ s. sym (bind-ok _)) (λ bs. refl)
      (Codes-seq read_optional_session (Codes-u8 {v = 0} (omega arith)) (Codes-nothing none))
Codes-flag (some session) h =
    Codes-seq read_optional_session (Codes-u8 {v = 1} (omega arith))
      (Codes-map some (Codes-session_status h))

pub Codes-status_response :
    {m : StatusResponse}
    → StatusResponseFits m
    → Codes (encode_status_response buffer m) decode_status_response m
unfolding encode_status_response decode_status_response
Codes-status_response {m} h = Codes-seq _ (Codes-daemon_status h.0) (
    Codes-eq (λ s. refl) (λ bs. sym (bind_assoc (read_u8 bs) _ _))
      (Codes-map (λ session. record { daemon = m.daemon; session = session })
        (Codes-flag m.session h.1)))
