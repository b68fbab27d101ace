-- ===== src/Daemon/Session/Exit.antt =====
-- What every client gets when the pty is closed.
use hauntty.Prelude.{
  ℕ, suc, zero, ◌≡◌, refl, sym, ap, ◌∙◌, subst, true, false, List, [], ◌∷◌, ◌++◌, append-nil,
  append_assoc, none, some, if◌then◌else◌, length, drop, ℤ, Bool-cases, inl, inr,
}
use hauntty.Protocol.Messages.{Message}
use hauntty.Daemon.Clients.{Client, contains, close_out, write_step, write_turn, write_final}
use hauntty.Daemon.Session.State.{Chunk, Loop, opt_list, flush}
use hauntty.Daemon.Session.Streams.{outputs, outputs-append, stream}
use hauntty.Daemon.Session.Steps.{leave, exit, reads_pty}
use hauntty.Daemon.Session.Delivery.{core, Delivers}
use hauntty.Daemon.Session.Delivery.Closing.{heap-for_each}
use hauntty.Daemon.Session.Delivery.Turns.{reads_pty-idle}
use hauntty.Daemon.Session.Feed.{fed, fed-flush, InStep}

-- n turns of a client's write loop whose writes all succeed.
unfoldable pub write_times : ℕ → Client → Client
write_times zero c = c
write_times (suc n) c = write_times n (write_step true c)

module _ (msg : Message) where
  step-writes :
      (c : Client) (next : Message) (rest : List Message)
      → c.out_ch ≡ next ∷ rest
      → c.write_done ≡ false
      → write_step true c ≡ record c { out_ch = rest; sent = c.sent ++ next ∷ [] }
  unfolding write_step write_turn
  step-writes c next rest e w = rw (w, e)

  step-ends :
      (c : Client)
      → c.out_ch ≡ []
      → c.write_done ≡ false
      → c.closed ≡ true
      → c.final ≡ some msg
      → write_step true c ≡ record c { write_done = true; sent = c.sent ++ msg ∷ [] }
  unfolding write_step write_turn write_final
  step-ends c e w k f = rw (w, e, k, f)

  -- On a closed channel, one turn for each message and one more write all and the final message.
  pub sent-write_times :
      (queued : List Message) (c : Client)
      → c.out_ch ≡ queued
      → c.write_done ≡ false
      → c.closed ≡ true
      → c.final ≡ some msg
      → ((write_times (suc (length queued)) c).sent ≡ c.sent ++ (queued ++ msg ∷ []))
        × ((write_times (suc (length queued)) c).write_done ≡ true)
  unfolding write_times
  sent-write_times [] c e w k f =
      subst (λ d. (d.sent ≡ c.sent ++ msg ∷ []) × (d.write_done ≡ true)) (sym (step-ends c e w k f))
        (refl, refl)
  sent-write_times (next ∷ rest) c e w k f =
      let now = record c { out_ch = rest; sent = c.sent ++ next ∷ [] } in
      let more = sent-write_times rest now refl w k f in
      subst
        (λ d.
          ((write_times (suc (length rest)) d).sent ≡ c.sent ++ (next ∷ rest ++ msg ∷ []))
          × ((write_times (suc (length rest)) d).write_done ≡ true))
        (sym (step-writes c next rest e w))
        (more.0 ∙ append_assoc c.sent (next ∷ []) (rest ++ msg ∷ []), more.1)

-- What a client has when its writer is through.
pub record SeesExit (code : ℤ) (before after : Client) (since : List Chunk) : Type 0 where
  pub ends : after.write_done ≡ true
  pub all :
      after.sent
      ≡ before.sent ++ (before.out_ch ++ Message.exited (record { exit_code = code }) ∷ [])
  pub output : outputs after.sent ≡ since

outputs-exit :
    (code : ℤ) (xs ys : List Message)
    → outputs (xs ++ (ys ++ Message.exited (record { exit_code = code }) ∷ [])) ≡ outputs (xs ++ ys)
unfolding outputs
outputs-exit code xs ys =
    let last : Message = Message.exited (record { exit_code = code }) in
    ap outputs (sym (append_assoc xs ys (last ∷ [])))
    ∙ (outputs-append (xs ++ ys) (last ∷ []) ∙ append-nil (outputs (xs ++ ys)))

left :
    (msg : Message) (c : Client)
    → c.closed ≡ false
    → leave msg c ≡ record c { final = some msg; closed = true }
unfolding leave close_out
left msg c h = rw h

idle-due :
    (v : Loop) (r : ℕ)
    → v.pending_output ≡ none
    → (if contains r v.pending_clients then opt_list v.pending_output else []) ≡ []
idle-due v r e = elim (Bool-cases (contains r v.pending_clients)) [
  | inl m ↦ simp (m, e)
  | inr m ↦ simp m
]

heap-exit :
    (code : ℤ) (s : Loop) (r : ℕ)
    → Delivers (core s)
    → contains r s.clients ≡ true
    → (exit code s).heap r ≡ record (s.heap r) {
      final = some (Message.exited (record { exit_code = code }));
      closed = true;
    }
unfolding exit flush
heap-exit code s r d m =
    let msg : Message = Message.exited (record { exit_code = code }) in
    rw (heap-for_each (leave msg) r s.clients s.heap d.distinct, m)
      (left msg (s.heap r) (d.served r m).is_open)

-- When the loop sees that the pty is closed, the terminal has been fed all output; and every client in
-- its list whose writer runs and whose writes succeed gets, in as many turns as its channel has
-- messages and one more, what its channel held and then `Exited` with the exit code: in all, the
-- output that the loop took since the client attached, to the last chunk.
pub exit-SeesExit :
    (code : ℤ) (s : Loop) (r : ℕ)
    → Delivers (core s)
    → InStep s
    → reads_pty s ≡ true
    → contains r s.clients ≡ true
    → (s.heap r).write_done ≡ false
    → (fed (exit code s).term ≡ s.accepted)
      × SeesExit code
          (s.heap r)
          (write_times (suc (length (s.heap r).out_ch)) ((exit code s).heap r))
          (drop (s.started r) s.accepted)
unfolding exit stream
exit-SeesExit code s r d h ready m w =
    let msg : Message = Message.exited (record { exit_code = code }) in
    let c = s.heap r in
    let served = d.served r m in
    let gone = record c { final = some msg; closed = true } in
    let told = sent-write_times msg c.out_ch gone refl w refl refl in
    let current =
      ap (λ ds. stream c ++ ds) (sym (idle-due s r (reads_pty-idle s ready))) ∙ served.current w in
    (
      fed-flush s ∙ h,
      subst
          (λ d.
            SeesExit code c (write_times (suc (length c.out_ch)) d) (drop (s.started r) s.accepted))
          (sym (heap-exit code s r d m))
          (record {
            ends = told.1;
            all = told.0;
            output =
                ap outputs told.0
                ∙ (outputs-exit code c.sent c.out_ch ∙ (sym (append-nil (stream c)) ∙ current));
          }),
    )
