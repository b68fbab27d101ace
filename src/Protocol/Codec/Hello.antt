-- ===== src/Protocol/Codec/Hello.antt =====
-- The greeting of either side: `WriteVersionReply`, whose bytes `Handshake` writes too, and `AcceptHandshake`.
use hauntty.Prelude.{ℕ, Text}
use hauntty.Protocol.Encoding.{buffer}
use hauntty.Protocol.Encoding.Codes.{Codes, Codes-seq, Codes-map}
use hauntty.Protocol.Encoding.Primitives.{IsU8, IsShort, Codes-u8, Codes-string}
use hauntty.Protocol.Codec.{write_version_reply, accept_handshake}

-- Either side's greeting is read by the other as it was sent.
pub Codes-hello :
    (version : ℕ) (revision : Text)
    → IsU8 version
    → IsShort revision
    → Codes (write_version_reply buffer version revision) accept_handshake (version, revision)
unfolding write_version_reply accept_handshake
Codes-hello version revision v r = Codes-seq _ (Codes-u8 v) (Codes-map _ (Codes-string r))
