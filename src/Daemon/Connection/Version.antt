-- ===== src/Daemon/Connection/Version.antt =====
-- What a client of another version gets.
use hauntty.Prelude.{◌⊎◌, ◌≢◌, ok, ℕ, ◌≡◌, List, [], ◌∷◌, Bool-cases, inl, inr, arith, ◌==◌, Text}
use hauntty.Protocol.Messages.{Message}
use hauntty.Protocol.Encoding.{buffer, write_u8, write_u16, write_string, write_body}
use hauntty.Protocol.Codec.{protocol_version, accept_handshake, write_version_reply}
use hauntty.Daemon.Connection.{greet, handle_conn, Answers, control_loop}

-- The answer to a handshake that can be read: a client of this protocol's version gets the version and
-- the server's revision, and is served; a client of another version gets version 0 with an empty
-- revision, and no call is made for it.
pub handle_conn-version :
    (revision : Text) (answers : Answers) (msgs : List Message) (version : ℕ)
    (client_revision : Text) (hello rest : List ℕ)
    → accept_handshake hello ≡ ok ((version, client_revision), rest)
    → ((version ≡ protocol_version)
        × (handle_conn revision answers msgs hello
            ≡ (write_version_reply buffer protocol_version revision [], control_loop answers msgs)))
      ⊎ ((version ≢ protocol_version)
          × (handle_conn revision answers msgs hello ≡ (ok (0 ∷ 0 ∷ 0 ∷ []), [])))
unfolding handle_conn greet write_version_reply write_u8 write_string write_u16 write_body
handle_conn-version revision answers msgs version client_revision hello rest e =
    elim (Bool-cases (version == protocol_version)) [
      | inl v ↦ inl (ground arith, rw (e, greet, v))
      | inr v ↦ inr (λ same. ground arith, rw (e, greet, v))
    ]
