-- ===== src/Daemon/Session/Clients.antt =====
-- Each operation on a client's object keeps its stream in order.
use hauntty.Prelude.{
  ◌≡◌, sym, ap, ◌∙◌, false, List, [], ◌∷◌, ◌++◌, append_assoc, arith, if◌then◌else◌, Bool-cases,
  inl, inr,
}
use hauntty.Protocol.Messages.{Message}
use hauntty.Daemon.Clients.{
  Client, takes, push, close_out, queue_one, is_blocked, finish, notify_one,
}
use hauntty.Daemon.Session.State.{Chunk, output, opt_list}
use hauntty.Daemon.Session.Streams.{
  payload_of, stream, stream-push, Begins, IsServed, IsSound, IsQuiet,
}

pub Begins-append : {xs ys : List Chunk} (zs : List Chunk) → Begins xs ys → Begins xs (ys ++ zs)
Begins-append {xs} zs b = record {
  rest = b.rest ++ zs;
  joined = sym (append_assoc xs b.rest zs) ∙ ap (λ l. l ++ zs) b.joined;
}

-- What a push leaves alone.
pub record Pushed (c d : Client) : Type 0 where
  pub closed : d.closed ≡ c.closed
  pub write_done : d.write_done ≡ c.write_done
  pub fault : d.fault ≡ c.fault
  pub sent : d.sent ≡ c.sent
  pub final : d.final ≡ c.final

push-Pushed : (msg : Message) (c : Client) → c.closed ≡ false → Pushed c (push msg c)
unfolding push
push-Pushed msg c h = elim (Bool-cases c.closed) [ inl e ↦ cc | inr e ↦ ground arith ]

push-IsServed :
    (msg : Message) (c : Client) (due since : List Chunk)
    → IsServed c (opt_list (payload_of msg) ++ due) since
    → IsServed (push msg c) due since
push-IsServed msg c due since v =
    let p = push-Pushed msg c v.is_open in
    record {
      is_open = p.closed ∙ v.is_open;
      current = λ alive.
          rw (stream-push msg c v.is_open, append_assoc (stream c) (opt_list (payload_of msg)) due)
            (v.current (sym p.write_done ∙ alive));
    }

-- A client that is served and sound stays sound when its channel takes more of its stream.
push-IsSound :
    (msg : Message) (c : Client) (due since : List Chunk)
    → IsServed c (opt_list (payload_of msg) ++ due) since
    → IsSound c since
    → IsSound (push msg c) since
push-IsSound msg c due since v s =
    let p = push-Pushed msg c v.is_open in
    let after = push-IsServed msg c due since v in
    record {
      no_fault = p.fault ∙ s.no_fault;
      written = rw p.sent s.written;
      queued = λ alive. record { rest = due; joined = after.current alive };
      final_quiet = rw p.final s.final_quiet;
    }

module _ (msg : Message) (quiet : IsQuiet msg) (c : Client) (due since : List Chunk)
    (v : IsServed c due since) where
  quiet-IsServed : IsServed c (opt_list (payload_of msg) ++ due) since
  quiet-IsServed = rw quiet v

  pub notify_one-IsServed : IsServed (notify_one msg c) due since
  unfolding notify_one
  notify_one-IsServed = elim (Bool-cases (takes c)) [
    | inl e ↦ rw e (push-IsServed msg c due since quiet-IsServed)
    | inr e ↦ rw e v
  ]

  pub notify_one-IsSound : IsSound c since → IsSound (notify_one msg c) since
  unfolding notify_one
  notify_one-IsSound s = elim (Bool-cases (takes c)) [
    | inl e ↦ rw e (push-IsSound msg c due since quiet-IsServed s)
    | inr e ↦ rw e s
  ]

module _ (d : Chunk) (c : Client) (since : List Chunk) (v : IsServed c (d ∷ []) since) where
  pub queue_one-IsServed :
      IsServed (queue_one (output d) c) (if is_blocked c then d ∷ [] else []) since
  unfolding queue_one
  queue_one-IsServed = elim (Bool-cases c.write_done) [
    | inl e ↦ simp e (record { is_open = v.is_open; current = λ alive. cc })
    | inr e ↦ elim (Bool-cases (takes c)) [
      | inl room ↦ simp (e, room) (push-IsServed (output d) c [] since v)
      | inr full ↦ simp (e, full) v
    ]
  ]

  pub queue_one-IsSound : IsSound c since → IsSound (queue_one (output d) c) since
  unfolding queue_one
  queue_one-IsSound s = elim (Bool-cases c.write_done) [
    | inl e ↦ simp e s
    | inr e ↦ elim (Bool-cases (takes c)) [
      | inl room ↦ simp (e, room) (push-IsSound (output d) c [] since v s)
      | inr full ↦ simp (e, full) s
    ]
  ]

-- Closing an open channel is no fault, and writes nothing.
pub close_out-IsSound :
    (c : Client) (since : List Chunk)
    → c.closed ≡ false
    → IsSound c since
    → IsSound (close_out c) since
unfolding close_out stream
close_out-IsSound c since h s = simp h (record {
  no_fault = s.no_fault;
  written = s.written;
  queued = s.queued;
  final_quiet = s.final_quiet;
})

pub finish-IsSound :
    (c : Client) (since : List Chunk)
    → c.closed ≡ false
    → IsSound c since
    → IsSound (finish c) since
unfolding finish
finish-IsSound c since h s = elim (Bool-cases c.write_done) [
  | inl e ↦ simp e (close_out-IsSound c since h s)
  | inr e ↦ simp e s
]
