-- ===== src/Protocol/Requests.antt =====
-- internal/protocol/messages_request.go: the `encode` and `decode` methods of the requests.
pub mod RoundTrip
pub mod Ranges
use hauntty.Protocol.Encoding.{
  Encoder, Decoder, Writer, ◌>>◌, ◌>>=◌, pure, write_u8, write_u16, write_u32, write_bool,
  write_string, write_string_slice, write_bytes, read_u8, read_u16, read_u32, read_bool,
  read_string, read_string_slice, read_bytes,
}
use hauntty.Protocol.Messages.{
  Create, Attach, Input, Resize, ListRequest, Kill, Send, SendKey, Dump, Kick, Status,
}

module _ {S : Type 0} (w : Writer S) where
  unfoldable pub encode_create : Create → Encoder S
  encode_create m = do
    write_string w m.name
    write_string_slice w m.command
    write_string_slice w m.env
    write_string w m.cwd
    write_u32 w m.scrollback
    write_bool w m.force

  unfoldable pub encode_attach : Attach → Encoder S
  encode_attach m = do
    write_string w m.name
    write_string_slice w m.command
    write_string_slice w m.env
    write_string w m.cwd
    write_u16 w m.cols
    write_u16 w m.rows
    write_u16 w m.xpixel
    write_u16 w m.ypixel
    write_bool w m.read_only
    write_bool w m.restore
    write_u32 w m.scrollback

  unfoldable pub encode_input : Input → Encoder S
  encode_input m = write_bytes w m.payload

  unfoldable pub encode_resize : Resize → Encoder S
  encode_resize m = do
    write_u16 w m.cols
    write_u16 w m.rows
    write_u16 w m.xpixel
    write_u16 w m.ypixel

  unfoldable pub encode_list : ListRequest → Encoder S
  encode_list m = write_bool w m.include_clients

  unfoldable pub encode_kill : Kill → Encoder S
  encode_kill m = write_string w m.name

  unfoldable pub encode_send : Send → Encoder S
  encode_send m = do write_string w m.name; write_bytes w m.payload

  unfoldable pub encode_send_key : SendKey → Encoder S
  encode_send_key m = do write_string w m.name; write_u32 w m.key; write_u32 w m.mods

  unfoldable pub encode_dump : Dump → Encoder S
  encode_dump m = do write_string w m.name; write_u8 w m.format

  unfoldable pub encode_kick : Kick → Encoder S
  encode_kick m = do write_string w m.name; write_string w m.client_id

  unfoldable pub encode_status : Status → Encoder S
  encode_status m = write_string w m.name

unfoldable pub decode_create : Decoder Create
decode_create = do
  name ← read_string
  command ← read_string_slice
  env ← read_string_slice
  cwd ← read_string
  scrollback ← read_u32
  force ← read_bool
  pure (record {
    name = name;
    command = command;
    env = env;
    cwd = cwd;
    scrollback = scrollback;
    force = force;
  })

unfoldable pub decode_attach : Decoder Attach
decode_attach = do
  name ← read_string
  command ← read_string_slice
  env ← read_string_slice
  cwd ← read_string
  cols ← read_u16
  rows ← read_u16
  xpixel ← read_u16
  ypixel ← read_u16
  read_only ← read_bool
  restore ← read_bool
  scrollback ← read_u32
  pure (record {
    name = name;
    command = command;
    env = env;
    cwd = cwd;
    cols = cols;
    rows = rows;
    xpixel = xpixel;
    ypixel = ypixel;
    read_only = read_only;
    restore = restore;
    scrollback = scrollback;
  })

unfoldable pub decode_input : Decoder Input
decode_input = do payload ← read_bytes; pure (record { payload = payload })

unfoldable pub decode_resize : Decoder Resize
decode_resize = do
  cols ← read_u16
  rows ← read_u16
  xpixel ← read_u16
  ypixel ← read_u16
  pure (record { cols = cols; rows = rows; xpixel = xpixel; ypixel = ypixel })

unfoldable pub decode_list : Decoder ListRequest
decode_list = do include_clients ← read_bool; pure (record { include_clients = include_clients })

unfoldable pub decode_kill : Decoder Kill
decode_kill = do name ← read_string; pure (record { name = name })

unfoldable pub decode_send : Decoder Send
decode_send = do
  name ← read_string
  payload ← read_bytes
  pure (record { name = name; payload = payload })

unfoldable pub decode_send_key : Decoder SendKey
decode_send_key = do
  name ← read_string
  key ← read_u32
  mods ← read_u32
  pure (record { name = name; key = key; mods = mods })

unfoldable pub decode_dump : Decoder Dump
decode_dump = do
  name ← read_string
  format ← read_u8
  pure (record { name = name; format = format })

unfoldable pub decode_kick : Decoder Kick
decode_kick = do
  name ← read_string
  client_id ← read_string
  pure (record { name = name; client_id = client_id })

unfoldable pub decode_status : Decoder Status
decode_status = do name ← read_string; pure (record { name = name })
