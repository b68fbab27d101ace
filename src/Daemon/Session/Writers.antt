-- ===== src/Daemon/Session/Writers.antt =====
-- The write loop of a client keeps its stream in order on the way to the connection.
use hauntty.Prelude.{
  ◌≡◌, refl, ◌∙◌, Bool, true, false, List, [], ◌∷◌, ◌++◌, append-nil, append_assoc, Option, none,
  some, Bool-cases, inl, inr,
}
use hauntty.Protocol.Messages.{Message}
use hauntty.Daemon.Clients.{Client, write_final, write_turn, write_step}
use hauntty.Daemon.Session.State.{Chunk}
use hauntty.Daemon.Session.Streams.{
  outputs, outputs-append, outputs-one, stream, Begins, IsServed, IsSound, IsQuiet,
}

stream_moves :
    (c : Client) (msg : Message) (rest : List Message)
    → c.out_ch ≡ msg ∷ rest
    → (due : List Chunk)
    → stream (record c { out_ch = rest; sent = c.sent ++ msg ∷ [] }) ++ due ≡ stream c ++ due
unfolding stream
stream_moves c msg rest e due = rw (append_assoc c.sent (msg ∷ []) rest, e)

-- The write loop moves the stream on to the connection, and keeps its order.
write_turn-IsServed :
    (b : Bool) (msgs : List Message) (c : Client) (due since : List Chunk)
    → c.out_ch ≡ msgs
    → c.write_done ≡ false
    → IsServed c due since
    → IsServed (write_turn msgs b c) due since
unfolding write_turn
write_turn-IsServed b [] c due since e h v = simp v.is_open v
write_turn-IsServed true (msg ∷ rest) c due since e h v = record {
  is_open = v.is_open;
  current = λ alive. moved ∙ v.current h;
}
  where
    moved : stream (record c { out_ch = rest; sent = c.sent ++ msg ∷ [] }) ++ due ≡ stream c ++ due
    moved = stream_moves c msg rest e due
write_turn-IsServed false (msg ∷ rest) c due since e h v = record {
  is_open = v.is_open;
  current = λ alive. cc;
}

pub write_step-IsServed :
    (b : Bool) (c : Client) (due since : List Chunk)
    → IsServed c due since
    → IsServed (write_step b c) due since
unfolding write_step
write_step-IsServed b c due since v = elim (Bool-cases c.write_done) [
  | inl e ↦ simp e v
  | inr e ↦ simp e (write_turn-IsServed b c.out_ch c due since refl e v)
]

-- What is sent next is the head of what was queued.
sent_next :
    (c : Client) (since : List Chunk) (msg : Message) (rest : List Message)
    → c.out_ch ≡ msg ∷ rest
    → Begins (stream c) since
    → Begins (outputs (c.sent ++ msg ∷ [])) since
unfolding stream
sent_next c since msg rest e b = record {
  rest = outputs rest ++ b.rest;
  joined =
      (rw
        (
          outputs-append c.sent (msg ∷ []),
          append_assoc (outputs c.sent) (outputs (msg ∷ [])) (outputs rest ++ b.rest),
          ← append_assoc (outputs (msg ∷ [])) (outputs rest) b.rest,
          ← outputs-append (msg ∷ []) rest,
          ← append_assoc (outputs c.sent) (outputs (msg ∷ rest)) b.rest,
          ← outputs-append c.sent (msg ∷ rest),
          ← e,
        )
        b.joined);
}

sent_final :
    (c : Client) (since : List Chunk) (msg : Message)
    → IsQuiet msg
    → Begins (outputs c.sent) since
    → Begins (outputs (c.sent ++ msg ∷ [])) since
sent_final c since msg quiet b =
    rw (outputs-append c.sent (msg ∷ []), outputs-one msg, quiet, append-nil (outputs c.sent)) b

write_final-IsSound :
    (b : Bool) (final : Option Message) (c : Client) (since : List Chunk)
    → c.final ≡ final
    → IsSound c since
    → IsSound (write_final final b c) since
unfolding write_final
write_final-IsSound b none c since e s = record {
  no_fault = s.no_fault;
  written = s.written;
  queued = λ alive. cc;
  final_quiet = s.final_quiet;
}
write_final-IsSound true (some msg) c since e s = record {
  no_fault = s.no_fault;
  written = sent_final c since msg (rw e at s.final_quiet) s.written;
  queued = λ alive. cc;
  final_quiet = s.final_quiet;
}
write_final-IsSound false (some msg) c since e s = record {
  no_fault = s.no_fault;
  written = s.written;
  queued = λ alive. cc;
  final_quiet = s.final_quiet;
}

write_turn-IsSound :
    (b : Bool) (msgs : List Message) (c : Client) (since : List Chunk)
    → c.out_ch ≡ msgs
    → c.write_done ≡ false
    → IsSound c since
    → IsSound (write_turn msgs b c) since
unfolding write_turn
write_turn-IsSound b [] c since e h s = elim (Bool-cases c.closed) [
  | inl z ↦ simp z (write_final-IsSound b c.final c since refl s)
  | inr z ↦ simp z s
]
write_turn-IsSound true (msg ∷ rest) c since e h s = record {
  no_fault = s.no_fault;
  written = sent_next c since msg rest e (s.queued h);
  queued = λ alive.
      let b = s.queued h in
      record { rest = b.rest; joined = stream_moves c msg rest e b.rest ∙ b.joined };
  final_quiet = s.final_quiet;
}
write_turn-IsSound false (msg ∷ rest) c since e h s = record {
  no_fault = s.no_fault;
  written = s.written;
  queued = λ alive. cc;
  final_quiet = s.final_quiet;
}

pub write_step-IsSound :
    (b : Bool) (c : Client) (since : List Chunk) → IsSound c since → IsSound (write_step b c) since
unfolding write_step
write_step-IsSound b c since s = elim (Bool-cases c.write_done) [
  | inl e ↦ simp e s
  | inr e ↦ simp e (write_turn-IsSound b c.out_ch c since refl e s)
]
