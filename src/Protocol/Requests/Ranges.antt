-- ===== src/Protocol/Requests/Ranges.antt =====
-- The requests that a decoder returns fit the wire.
use hauntty.Protocol.Encoding.Ranges.{
  Yields, Yields-pure, Yields-bind, Yields-read_u8, Yields-read_u16, Yields-read_u32, Yields-bool,
  Yields-string, Yields-string_slice, Yields-bytes,
}
use hauntty.Protocol.Requests.{
  decode_create, decode_attach, decode_input, decode_resize, decode_list, decode_kill, decode_send,
  decode_send_key, decode_dump, decode_kick, decode_status,
}
use hauntty.Protocol.Requests.RoundTrip.{
  CreateFits, AttachFits, InputFits, ResizeFits, KillFits, SendFits, SendKeyFits, DumpFits,
  KickFits, StatusFits,
}

pub Yields-create : Yields decode_create CreateFits
unfolding decode_create
Yields-create = Yields-bind Yields-string (λ name name_fits.
    Yields-bind Yields-string_slice (λ command command_fits.
      Yields-bind Yields-string_slice (λ env env_fits. Yields-bind Yields-string (λ cwd cwd_fits.
        Yields-bind Yields-read_u32 (λ scrollback scrollback_fits.
          Yields-bind Yields-bool (λ force _. Yields-pure (record {
            name = name_fits;
            command = command_fits;
            env = env_fits;
            cwd = cwd_fits;
            scrollback = scrollback_fits;
          })))))))

pub Yields-attach : Yields decode_attach AttachFits
unfolding decode_attach
Yields-attach = Yields-bind Yields-string (λ name name_fits.
    Yields-bind Yields-string_slice (λ command command_fits.
      Yields-bind Yields-string_slice (λ env env_fits. Yields-bind Yields-string (λ cwd cwd_fits.
        Yields-bind Yields-read_u16 (λ cols cols_fits.
          Yields-bind Yields-read_u16 (λ rows rows_fits.
            Yields-bind Yields-read_u16 (λ xpixel xpixel_fits.
              Yields-bind Yields-read_u16 (λ ypixel ypixel_fits.
                Yields-bind Yields-bool (λ read_only _. Yields-bind Yields-bool (λ restore _.
                  Yields-bind Yields-read_u32 (λ scrollback scrollback_fits. Yields-pure (record {
                    name = name_fits;
                    command = command_fits;
                    env = env_fits;
                    cwd = cwd_fits;
                    cols = cols_fits;
                    rows = rows_fits;
                    xpixel = xpixel_fits;
                    ypixel = ypixel_fits;
                    scrollback = scrollback_fits;
                  }))))))))))))

pub Yields-input : Yields decode_input InputFits
unfolding decode_input
Yields-input =
    Yields-bind Yields-bytes
      (λ payload payload_fits. Yields-pure (record { payload = payload_fits }))

pub Yields-resize : Yields decode_resize ResizeFits
unfolding decode_resize
Yields-resize = Yields-bind Yields-read_u16 (λ cols cols_fits.
    Yields-bind Yields-read_u16 (λ rows rows_fits.
      Yields-bind Yields-read_u16 (λ xpixel xpixel_fits.
        Yields-bind Yields-read_u16 (λ ypixel ypixel_fits. Yields-pure (record {
          cols = cols_fits;
          rows = rows_fits;
          xpixel = xpixel_fits;
          ypixel = ypixel_fits;
        })))))

pub Yields-list : Yields decode_list (λ _. Unit)
unfolding decode_list
Yields-list = Yields-bind Yields-bool (λ include_clients _. Yields-pure tt)

pub Yields-kill : Yields decode_kill KillFits
unfolding decode_kill
Yields-kill =
    Yields-bind Yields-string (λ name name_fits. Yields-pure (record { name = name_fits }))

pub Yields-send : Yields decode_send SendFits
unfolding decode_send
Yields-send = Yields-bind Yields-string (λ name name_fits.
    Yields-bind Yields-bytes
      (λ payload payload_fits. Yields-pure (record { name = name_fits; payload = payload_fits })))

pub Yields-send_key : Yields decode_send_key SendKeyFits
unfolding decode_send_key
Yields-send_key = Yields-bind Yields-string (λ name name_fits.
    Yields-bind Yields-read_u32 (λ key key_fits. Yields-bind Yields-read_u32 (λ mods mods_fits.
      Yields-pure (record { name = name_fits; key = key_fits; mods = mods_fits }))))

pub Yields-dump : Yields decode_dump DumpFits
unfolding decode_dump
Yields-dump = Yields-bind Yields-string (λ name name_fits.
    Yields-bind Yields-read_u8
      (λ format format_fits. Yields-pure (record { name = name_fits; format = format_fits })))

pub Yields-kick : Yields decode_kick KickFits
unfolding decode_kick
Yields-kick = Yields-bind Yields-string (λ name name_fits.
    Yields-bind Yields-string (λ client_id client_id_fits.
      Yields-pure (record { name = name_fits; client_id = client_id_fits })))

pub Yields-status : Yields decode_status StatusFits
unfolding decode_status
Yields-status =
    Yields-bind Yields-string (λ name name_fits. Yields-pure (record { name = name_fits }))
