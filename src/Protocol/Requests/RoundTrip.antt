-- ===== src/Protocol/Requests/RoundTrip.antt =====
-- Each request is read back as it was written, when its fields fit their widths on the wire.
use hauntty.Protocol.Encoding.{buffer}
use hauntty.Protocol.Encoding.Codes.{Codes, Codes-seq, Codes-map}
use hauntty.Protocol.Encoding.Primitives.{
  IsU8, IsU16, IsU32, IsShort, AreShort, IsBlob, Codes-u8, Codes-u16, Codes-u32, Codes-bool,
  Codes-string, Codes-string_slice, Codes-bytes,
}
use hauntty.Protocol.Messages.{
  Create, Attach, Input, Resize, ListRequest, Kill, Send, SendKey, Dump, Kick, Status,
}
use hauntty.Protocol.Requests.{
  encode_create, decode_create, encode_attach, decode_attach, encode_input, decode_input,
  encode_resize, decode_resize, encode_list, decode_list, encode_kill, decode_kill, encode_send,
  decode_send, encode_send_key, decode_send_key, encode_dump, decode_dump, encode_kick, decode_kick,
  encode_status, decode_status,
}

pub record CreateFits (m : Create) : Type 0 where
  pub name : IsShort m.name
  pub command : AreShort m.command
  pub env : AreShort m.env
  pub cwd : IsShort m.cwd
  pub scrollback : IsU32 m.scrollback

pub Codes-create : {m : Create} → CreateFits m → Codes (encode_create buffer m) decode_create m
unfolding encode_create decode_create
Codes-create h = Codes-seq _ (Codes-string h.name) (
    Codes-seq _ (Codes-string_slice h.command) (
      Codes-seq _ (Codes-string_slice h.env) (
        Codes-seq _ (Codes-string h.cwd)
          (Codes-seq _ (Codes-u32 h.scrollback) (Codes-map _ Codes-bool)))))

pub record AttachFits (m : Attach) : Type 0 where
  pub name : IsShort m.name
  pub command : AreShort m.command
  pub env : AreShort m.env
  pub cwd : IsShort m.cwd
  pub cols : IsU16 m.cols
  pub rows : IsU16 m.rows
  pub xpixel : IsU16 m.xpixel
  pub ypixel : IsU16 m.ypixel
  pub scrollback : IsU32 m.scrollback

pub Codes-attach : {m : Attach} → AttachFits m → Codes (encode_attach buffer m) decode_attach m
unfolding encode_attach decode_attach
Codes-attach h = Codes-seq _ (Codes-string h.name) (
    Codes-seq _ (Codes-string_slice h.command) (
      Codes-seq _ (Codes-string_slice h.env) (
        Codes-seq _ (Codes-string h.cwd) (
          Codes-seq _ (Codes-u16 h.cols) (
            Codes-seq _ (Codes-u16 h.rows) (
              Codes-seq _ (Codes-u16 h.xpixel) (
                Codes-seq _ (Codes-u16 h.ypixel) (
                  Codes-seq _ Codes-bool
                    (Codes-seq _ Codes-bool (Codes-map _ (Codes-u32 h.scrollback)))))))))))

pub record InputFits (m : Input) : Type 0 where
  pub payload : IsBlob m.payload

pub Codes-input : {m : Input} → InputFits m → Codes (encode_input buffer m) decode_input m
unfolding encode_input decode_input
Codes-input h = Codes-map _ (Codes-bytes h.payload)

pub record ResizeFits (m : Resize) : Type 0 where
  pub cols : IsU16 m.cols
  pub rows : IsU16 m.rows
  pub xpixel : IsU16 m.xpixel
  pub ypixel : IsU16 m.ypixel

pub Codes-resize : {m : Resize} → ResizeFits m → Codes (encode_resize buffer m) decode_resize m
unfolding encode_resize decode_resize
Codes-resize h = Codes-seq _ (Codes-u16 h.cols) (
    Codes-seq _ (Codes-u16 h.rows)
      (Codes-seq _ (Codes-u16 h.xpixel) (Codes-map _ (Codes-u16 h.ypixel))))

pub Codes-list : {m : ListRequest} → Codes (encode_list buffer m) decode_list m
unfolding encode_list decode_list
Codes-list = Codes-map _ Codes-bool

pub record KillFits (m : Kill) : Type 0 where
  pub name : IsShort m.name

pub Codes-kill : {m : Kill} → KillFits m → Codes (encode_kill buffer m) decode_kill m
unfolding encode_kill decode_kill
Codes-kill h = Codes-map _ (Codes-string h.name)

pub record SendFits (m : Send) : Type 0 where
  pub name : IsShort m.name
  pub payload : IsBlob m.payload

pub Codes-send : {m : Send} → SendFits m → Codes (encode_send buffer m) decode_send m
unfolding encode_send decode_send
Codes-send h = Codes-seq _ (Codes-string h.name) (Codes-map _ (Codes-bytes h.payload))

pub record SendKeyFits (m : SendKey) : Type 0 where
  pub name : IsShort m.name
  pub key : IsU32 m.key
  pub mods : IsU32 m.mods

pub Codes-send_key :
    {m : SendKey} → SendKeyFits m → Codes (encode_send_key buffer m) decode_send_key m
unfolding encode_send_key decode_send_key
Codes-send_key h =
    Codes-seq _ (Codes-string h.name)
      (Codes-seq _ (Codes-u32 h.key) (Codes-map _ (Codes-u32 h.mods)))

pub record DumpFits (m : Dump) : Type 0 where
  pub name : IsShort m.name
  pub format : IsU8 m.format

pub Codes-dump : {m : Dump} → DumpFits m → Codes (encode_dump buffer m) decode_dump m
unfolding encode_dump decode_dump
Codes-dump h = Codes-seq _ (Codes-string h.name) (Codes-map _ (Codes-u8 h.format))

pub record KickFits (m : Kick) : Type 0 where
  pub name : IsShort m.name
  pub client_id : IsShort m.client_id

pub Codes-kick : {m : Kick} → KickFits m → Codes (encode_kick buffer m) decode_kick m
unfolding encode_kick decode_kick
Codes-kick h = Codes-seq _ (Codes-string h.name) (Codes-map _ (Codes-string h.client_id))

pub record StatusFits (m : Status) : Type 0 where
  pub name : IsShort m.name

pub Codes-status : {m : Status} → StatusFits m → Codes (encode_status buffer m) decode_status m
unfolding encode_status decode_status
Codes-status h = Codes-map _ (Codes-string h.name)
