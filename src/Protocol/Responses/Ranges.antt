-- ===== src/Protocol/Responses/Ranges.antt =====
-- The responses that a decoder returns fit the wire.
use hauntty.Prelude.{ℕ, ◌==◌}
use hauntty.Protocol.Encoding.Ranges.{
  Yields, Yields-pure, Yields-if, Yields-bind, Yields-counted, Yields-read_u8, Yields-read_u16,
  Yields-read_u32, Yields-read_i32, Yields-bool, Yields-string, Yields-bytes,
}
use hauntty.Protocol.Encoding.{client_count_exceeds, session_count_exceeds}
use hauntty.Protocol.Responses.Decode.{
  decode_session_client, read_clients, decode_session_clients, decode_session, read_sessions,
  decode_sessions, decode_daemon_status, decode_session_status, read_optional_session,
  decode_status_response, decode_error, decode_output, decode_created, decode_attached,
  decode_exited, decode_dump_response, decode_prune_response, decode_clients_changed,
}
use hauntty.Protocol.Responses.Fits.{
  SessionClientFits, AreSessionClients, SessionFits, SessionsFits, DaemonStatusFits,
  SessionStatusFits, OptionalFits, StatusResponseFits, ErrorReplyFits, OutputFits, CreatedFits,
  AttachedFits, ExitedFits, DumpResponseFits, PruneResponseFits, ClientsChangedFits,
}

Yields-session_client : Yields decode_session_client SessionClientFits
unfolding decode_session_client
Yields-session_client = Yields-bind Yields-string (λ client_id client_id_fits.
    Yields-bind Yields-bool (λ read_only _. Yields-bind Yields-string (λ version version_fits.
      Yields-pure (record { client_id = client_id_fits; version = version_fits }))))

Yields-session_clients : Yields decode_session_clients AreSessionClients
unfolding decode_session_clients read_clients
Yields-session_clients =
    Yields-bind Yields-read_u32
      (λ n h. Yields-counted n (client_count_exceeds n) Yields-session_client)

pub Yields-error : Yields decode_error ErrorReplyFits
unfolding decode_error
Yields-error =
    Yields-bind Yields-string
      (λ message message_fits. Yields-pure (record { message = message_fits }))

pub Yields-output : Yields decode_output OutputFits
unfolding decode_output
Yields-output =
    Yields-bind Yields-bytes
      (λ payload payload_fits. Yields-pure (record { payload = payload_fits }))

pub Yields-created : Yields decode_created CreatedFits
unfolding decode_created
Yields-created = Yields-bind Yields-string (λ name name_fits.
    Yields-bind Yields-read_u32
      (λ pid pid_fits. Yields-pure (record { name = name_fits; pid = pid_fits })))

pub Yields-attached : Yields decode_attached AttachedFits
unfolding decode_attached
Yields-attached = Yields-bind Yields-string (λ name name_fits.
    Yields-bind Yields-read_u32 (λ pid pid_fits.
      Yields-bind Yields-string (λ client_id client_id_fits.
        Yields-bind Yields-read_u16 (λ cols cols_fits.
          Yields-bind Yields-read_u16 (λ rows rows_fits.
            Yields-bind Yields-bytes (λ screen_dump screen_dump_fits.
              Yields-bind Yields-read_u32 (λ cursor_row cursor_row_fits.
                Yields-bind Yields-read_u32 (λ cursor_col cursor_col_fits.
                  Yields-bind Yields-bool (λ alt_screen _. Yields-bind Yields-bool (λ created _.
                    Yields-pure (record {
                      name = name_fits;
                      pid = pid_fits;
                      client_id = client_id_fits;
                      cols = cols_fits;
                      rows = rows_fits;
                      screen_dump = screen_dump_fits;
                      cursor_row = cursor_row_fits;
                      cursor_col = cursor_col_fits;
                    })))))))))))

pub Yields-exited : Yields decode_exited ExitedFits
unfolding decode_exited
Yields-exited =
    Yields-bind Yields-read_i32
      (λ exit_code exit_code_fits. Yields-pure (record { exit_code = exit_code_fits }))

pub Yields-dump_response : Yields decode_dump_response DumpResponseFits
unfolding decode_dump_response
Yields-dump_response =
    Yields-bind Yields-bytes
      (λ payload payload_fits. Yields-pure (record { payload = payload_fits }))

pub Yields-prune_response : Yields decode_prune_response PruneResponseFits
unfolding decode_prune_response
Yields-prune_response =
    Yields-bind Yields-read_u32 (λ count count_fits. Yields-pure (record { count = count_fits }))

pub Yields-clients_changed : Yields decode_clients_changed ClientsChangedFits
unfolding decode_clients_changed
Yields-clients_changed = Yields-bind Yields-read_u16 (λ count count_fits.
    Yields-bind Yields-read_u16 (λ cols cols_fits. Yields-bind Yields-read_u16 (λ rows rows_fits.
      Yields-pure (record { count = count_fits; cols = cols_fits; rows = rows_fits }))))

Yields-session : Yields decode_session SessionFits
unfolding decode_session
Yields-session = Yields-bind Yields-string (λ name name_fits.
    Yields-bind Yields-string (λ state state_fits. Yields-bind Yields-read_u16 (λ cols cols_fits.
      Yields-bind Yields-read_u16 (λ rows rows_fits. Yields-bind Yields-read_u32 (λ pid pid_fits.
        Yields-bind Yields-read_u32 (λ created_at created_at_fits.
          Yields-bind Yields-read_u32 (λ saved_at saved_at_fits.
            Yields-bind Yields-string (λ cwd cwd_fits.
              Yields-bind Yields-session_clients (λ clients clients_fits. Yields-pure (record {
                name = name_fits;
                state = state_fits;
                cols = cols_fits;
                rows = rows_fits;
                pid = pid_fits;
                created_at = created_at_fits;
                saved_at = saved_at_fits;
                cwd = cwd_fits;
                clients = clients_fits;
              }))))))))))

Yields-session_list :
    (n : ℕ) → Yields (read_sessions n) (λ xs. SessionsFits (record { sessions = xs }))
unfolding read_sessions
Yields-session_list n = Yields-counted n (session_count_exceeds n) Yields-session

pub Yields-sessions : Yields decode_sessions SessionsFits
unfolding decode_sessions
Yields-sessions =
    Yields-bind Yields-read_u32
      (λ n h. Yields-bind (Yields-session_list n) (λ xs hs. Yields-pure hs))

Yields-daemon_status : Yields decode_daemon_status DaemonStatusFits
unfolding decode_daemon_status
Yields-daemon_status = Yields-bind Yields-read_u32 (λ pid pid_fits.
    Yields-bind Yields-read_u32 (λ uptime uptime_fits.
      Yields-bind Yields-string (λ socket_path socket_path_fits.
        Yields-bind Yields-read_u32 (λ running_count running_count_fits.
          Yields-bind Yields-read_u32 (λ dead_count dead_count_fits.
            Yields-bind Yields-string (λ version version_fits. Yields-pure (record {
              pid = pid_fits;
              uptime = uptime_fits;
              socket_path = socket_path_fits;
              running_count = running_count_fits;
              dead_count = dead_count_fits;
              version = version_fits;
            })))))))

Yields-session_status : Yields decode_session_status SessionStatusFits
unfolding decode_session_status
Yields-session_status = Yields-bind Yields-string (λ name name_fits.
    Yields-bind Yields-string (λ state state_fits. Yields-bind Yields-read_u16 (λ cols cols_fits.
      Yields-bind Yields-read_u16 (λ rows rows_fits. Yields-bind Yields-read_u32 (λ pid pid_fits.
        Yields-bind Yields-string (λ cwd cwd_fits.
          Yields-bind Yields-session_clients (λ clients clients_fits. Yields-pure (record {
            name = name_fits;
            state = state_fits;
            cols = cols_fits;
            rows = rows_fits;
            pid = pid_fits;
            cwd = cwd_fits;
            clients = clients_fits;
          }))))))))

Yields-flag : (flag : ℕ) → Yields (read_optional_session flag) OptionalFits
unfolding read_optional_session
Yields-flag flag =
    Yields-if (flag == 0) (λ _. Yields-pure tt)
      (λ _. Yields-bind Yields-session_status (λ session h. Yields-pure h))

pub Yields-status_response : Yields decode_status_response StatusResponseFits
unfolding decode_status_response
Yields-status_response = Yields-bind Yields-daemon_status (λ daemon hd.
    Yields-bind Yields-read_u8
      (λ flag hf. Yields-bind (Yields-flag flag) (λ session hs. Yields-pure (hd, hs))))
