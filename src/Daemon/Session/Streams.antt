-- ===== src/Daemon/Session/Streams.antt =====
-- The stream of pty output that a client sees, and how its object's operations carry it on.
use hauntty.Prelude.{
  ◌≡◌, refl, sym, false, List, [], ◌∷◌, ◌++◌, append-nil, append_assoc, Option, none, some,
}
use hauntty.Protocol.Messages.{Message}
use hauntty.Daemon.Clients.{Client, push}
use hauntty.Daemon.Session.State.{Chunk, opt_list}

abbrev pub payload_of : Message → Option Chunk
payload_of (Message.output m) = some m.payload
payload_of _ = none

-- The pty output among messages.
unfoldable pub outputs : List Message → List Chunk
outputs [] = []
outputs (msg ∷ msgs) = opt_list (payload_of msg) ++ outputs msgs

pub outputs-append : (xs ys : List Message) → outputs (xs ++ ys) ≡ outputs xs ++ outputs ys
unfolding outputs
outputs-append [] ys = refl
outputs-append (x ∷ xs) ys =
    rw (outputs-append xs ys)
      (sym (append_assoc (opt_list (payload_of x)) (outputs xs) (outputs ys)))

pub outputs-one : (msg : Message) → outputs (msg ∷ []) ≡ opt_list (payload_of msg)
unfolding outputs
outputs-one msg = append-nil _

-- The pty output that was sent to a client's connection or waits in its channel.
unfoldable pub stream : Client → List Chunk
stream c = outputs (c.sent ++ c.out_ch)

-- `xs` begins `ys`.
pub record Begins (xs ys : List Chunk) : Type 0 where
  pub rest : List Chunk
  pub joined : xs ++ rest ≡ ys

-- A client in the loop's list: its channel is open, and while its writer runs it has all output since
-- it attached but what is still due to it.
pub record IsServed (c : Client) (due since : List Chunk) : Type 0 where
  pub is_open : c.closed ≡ false
  pub current : c.write_done ≡ false → stream c ++ due ≡ since

-- A message that is not pty output.
abbrev pub IsQuiet : Message → Type 0
IsQuiet msg = payload_of msg ≡ none

abbrev pub QuietFinal : Option Message → Type 0
QuietFinal none = Unit {0}
QuietFinal (some msg) = IsQuiet msg

-- Any client: nothing was sent on a closed channel, and its connection has a beginning of the output
-- since it attached; so has its channel, while its writer runs.
pub record IsSound (c : Client) (since : List Chunk) : Type 0 where
  pub no_fault : c.fault ≡ false
  pub written : Begins (outputs c.sent) since
  pub queued : c.write_done ≡ false → Begins (stream c) since
  pub final_quiet : QuietFinal c.final

pub stream-push :
    (msg : Message) (c : Client)
    → c.closed ≡ false
    → stream (push msg c) ≡ stream c ++ opt_list (payload_of msg)
unfolding stream push
stream-push msg c h = rw (
  h,
  ← append_assoc c.sent c.out_ch (msg ∷ []),
  outputs-append (c.sent ++ c.out_ch) (msg ∷ []),
  outputs-one msg,
)
