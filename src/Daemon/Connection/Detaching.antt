-- ===== src/Daemon/Connection/Detaching.antt =====
-- A client that a connection attached is detached at its end.
use hauntty.Prelude.{
  ℕ, ◌≡◌, ◌≤◌, refl, sym, ◌∙◌, ap, Bool, true, false, List, [], ◌∷◌, Option, none, some,
  if◌then◌else◌, length, Bool-cases, inl, inr, arith,
}
use hauntty.Protocol.Messages.{Message, Attach, attach, input, resize}
use hauntty.Daemon.Connection.{
  after_answer, Attachment, Call, handle, attach_accepted, detach_client, Answers, is_request,
  stream_loop, attachment, control_loop,
}

-- The attachments that calls make, and those that they end.
abbrev pub opened : List Call → List Attachment
opened [] = []
opened (attach_accepted a ∷ calls) = a ∷ opened calls
opened (call ∷ calls) = opened calls

abbrev pub ended : List Call → List Attachment
ended [] = []
ended (detach_client a ∷ calls) = a ∷ ended calls
ended (call ∷ calls) = ended calls

pub stream-calls :
    (a : Attachment) (msgs : List Message)
    → (opened (stream_loop a msgs) ≡ []) × (ended (stream_loop a msgs) ≡ a ∷ [])
unfolding stream_loop
stream-calls a [] = (refl, refl)
stream-calls a (input m ∷ msgs) = elim (Bool-cases a.read_only) [
  | inl r ↦ simp r (stream-calls a msgs)
  | inr r ↦ simp r (stream-calls a msgs)
]
stream-calls a (resize m ∷ msgs) = elim (Bool-cases a.read_only) [
  | inl r ↦ simp r (stream-calls a msgs)
  | inr r ↦ simp r (stream-calls a msgs)
]
stream-calls a (msg ∷ msgs) = (refl, refl)

-- One attachment at most, and ended if there is one.
abbrev Balanced : List Call → Type 0
Balanced calls = (ended calls ≡ opened calls) × (length (opened calls) ≤ 1)

after_attach :
    (a : Attachment) (msgs : List Message) → Balanced (attach_accepted a ∷ stream_loop a msgs)
after_attach a msgs =
    let calls = stream-calls a msgs in
    (calls.1 ∙ ap (λ rest. a ∷ rest) (sym calls.0), omega (arith, ap length calls.0))

answer-Balanced :
    (m : Attach) (got : Option (ℕ × ℕ)) (msgs : List Message) (calls : List Call)
    → Balanced calls
    → Balanced (after_answer m got msgs calls)
unfolding after_answer
answer-Balanced m none msgs calls h = h
answer-Balanced m (some got) msgs calls h = after_attach (attachment m got) msgs

request-Balanced :
    (b : Bool) (msg : Message) (calls : List Call)
    → Balanced calls
    → Balanced (if b then handle msg ∷ calls else [])
request-Balanced true msg calls h = h
request-Balanced false msg calls h = (refl, omega arith)

-- A connection ends as many attachments as it opens, the same ones, and opens one at most: a client
-- that was attached is detached exactly once, whether the connection fails, the client detaches, or a
-- message comes that streaming mode does not know.
pub control_loop-Balanced :
    (answers : Answers) (msgs : List Message)
    → (ended (control_loop answers msgs) ≡ opened (control_loop answers msgs))
      × (length (opened (control_loop answers msgs)) ≤ 1)
unfolding control_loop
control_loop-Balanced answers [] = (refl, omega arith)
control_loop-Balanced answers (attach m ∷ msgs) =
    answer-Balanced m (answers (length msgs) m) msgs (control_loop answers msgs)
      (control_loop-Balanced answers msgs)
control_loop-Balanced answers (msg ∷ msgs) =
    request-Balanced (is_request msg) msg (control_loop answers msgs)
      (control_loop-Balanced answers msgs)
