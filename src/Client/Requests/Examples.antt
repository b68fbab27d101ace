-- ===== src/Client/Requests/Examples.antt =====
-- A kill over a connection.
use hauntty.Prelude.{
  ◌≡◌, refl, ap, sym, subst, ◌∙◌, none, [], ◌∷◌, some, ok, codes, text_eq, arith, Option,
}
use hauntty.Protocol.Encoding.{write_u8, write_string}
use hauntty.Protocol.Messages.{Message}
use hauntty.Protocol.Codec.Types.{message_type, type_byte, encode_message}
use hauntty.Protocol.Codec.Streams.{Sendable}
use hauntty.Protocol.Codec.{encode_frame}
use hauntty.Protocol.Requests.{encode_kill}
use hauntty.Daemon.Server.{find}
use hauntty.Daemon.Requests.{Effect, Handled, handle_kill}
use hauntty.Daemon.Requests.Answers.{answer}
use hauntty.Daemon.Requests.Examples.{host, server}
use hauntty.Client.Requests.{kill, as_ok, request, response}
use hauntty.Client.Requests.Answered.{serve, request-answer}
use hauntty.Client.Requests.Understood.{kills, IsUnderstood, call-IsUnderstood}

abbrev kill_ab : Message
kill_ab = Message.kill (record { name = codes "ab" })

kill_frame : encode_frame kill_ab [] ≡ ok (6 ∷ 0 ∷ 2 ∷ 97 ∷ 98 ∷ [])
unfolding encode_frame encode_message encode_kill type_byte message_type write_u8 write_string
kill_frame = refl

kill_Sendable : Sendable kill_ab
kill_Sendable = record {
  fits = omega arith;
  frame = 6 ∷ 0 ∷ 2 ∷ 97 ∷ 98 ∷ [];
  encoded = kill_frame;
  within = omega arith;
}

okay_frame : encode_frame Message.okay [] ≡ ok (0x80 ∷ [])
unfolding encode_frame encode_message type_byte message_type write_u8
okay_frame = refl

okay_Sendable : Sendable Message.okay
okay_Sendable = record { fits = tt; frame = 0x80 ∷ []; encoded = okay_frame; within = omega arith }

abbrev killed : Handled
killed = record { server = server; effects = Effect.killed 1 ∷ []; reply = Message.okay }

answered : answer host kill_ab server ≡ some killed
unfolding answer handle_kill find text_eq
answered = refl

abbrev reply_or : Message → Option Handled → Message
reply_or m none = m
reply_or m (some handled) = handled.reply

only : (handled : Handled) → answer host kill_ab server ≡ some handled → Sendable handled.reply
only handled e = subst Sendable (ap (reply_or Message.okay) (sym answered ∙ e)) okay_Sendable

request-answer_example :
    request as_ok (codes "kill") kill_ab (serve host server)
    ≡ response as_ok (codes "kill") Message.okay
request-answer_example =
    request-answer as_ok (codes "kill") host server kill_ab killed answered kill_Sendable
      okay_Sendable

call-IsUnderstood_example : IsUnderstood (kill (codes "ab") (serve host server))
call-IsUnderstood_example = call-IsUnderstood host server (kills (codes "ab")) kill_Sendable only
