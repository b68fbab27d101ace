-- ===== src/Daemon/Connection/ReadOnly.antt =====
-- A read-only client neither writes nor resizes.
use hauntty.Prelude.{
  not, ℕ, ◌≡◌, refl, Bool, true, false, List, [], ◌∷◌, Option, none, some, if◌then◌else◌, length,
  arith, All,
}
use hauntty.Protocol.Messages.{Message, Attach, attach, input, resize, send, send_key}
use hauntty.Daemon.Connection.{
  after_answer, Attachment, Call, handle, send_input, resize_client, Answers, is_request,
  stream_loop, attachment, control_loop,
}

-- A message that writes to a session, or opens an attachment that may.
abbrev pub may_write : Message → Bool
may_write (attach m) = not m.read_only
may_write (send m) = true
may_write (send_key m) = true
may_write _ = false

-- A call that writes input to a session or resizes a client of it.
abbrev pub is_write : Call → Bool
is_write (send_input session payload) = true
is_write (resize_client a size) = true
is_write (handle msg) = may_write msg
is_write _ = false

abbrev IsPassive : List Call → Type 0
IsPassive calls = All (λ call. is_write call ≡ false) calls

stream-IsPassive :
    (a : Attachment) (msgs : List Message) → a.read_only ≡ true → IsPassive (stream_loop a msgs)
unfolding stream_loop
stream-IsPassive a [] r = (refl, tt)
stream-IsPassive a (input m ∷ msgs) r = simp r (stream-IsPassive a msgs r)
stream-IsPassive a (resize m ∷ msgs) r = simp r (stream-IsPassive a msgs r)
stream-IsPassive a (msg ∷ msgs) r = (refl, tt)

answer-IsPassive :
    (m : Attach) (got : Option (ℕ × ℕ)) (msgs : List Message) (calls : List Call)
    → not m.read_only ≡ false
    → IsPassive calls
    → IsPassive (after_answer m got msgs calls)
unfolding after_answer
answer-IsPassive m none msgs calls r h = (refl, h)
answer-IsPassive m (some got) msgs calls r h =
    (refl, stream-IsPassive (attachment m got) msgs (ground arith))

request-IsPassive :
    (b : Bool) (msg : Message) (calls : List Call)
    → may_write msg ≡ false
    → IsPassive calls
    → IsPassive (if b then handle msg ∷ calls else [])
request-IsPassive true msg calls p h = (p, h)
request-IsPassive false msg calls p h = tt

-- A connection whose attaches are all read-only, and that sends no `Send` and no `SendKey`, writes input
-- to no session and resizes no client, whatever other messages it sends, `Input` and `Resize` included.
pub control_loop-passive :
    (answers : Answers) (msgs : List Message)
    → All (λ msg. may_write msg ≡ false) msgs
    → All (λ call. is_write call ≡ false) (control_loop answers msgs)
unfolding control_loop
control_loop-passive answers [] h = tt
control_loop-passive answers (attach m ∷ msgs) h =
    answer-IsPassive m (answers (length msgs) m) msgs (control_loop answers msgs) h.0
      (control_loop-passive answers msgs h.1)
control_loop-passive answers (msg ∷ msgs) h =
    request-IsPassive (is_request msg) msg (control_loop answers msgs) h.0
      (control_loop-passive answers msgs h.1)
