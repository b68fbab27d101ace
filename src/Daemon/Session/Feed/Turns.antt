-- ===== src/Daemon/Session/Feed/Turns.antt =====
-- Every turn keeps the terminal in step with the pty.
use hauntty.Prelude.{
  subst, ◌≡◌, refl, sym, ◌∙◌, true, false, List, [], ◌∷◌, ◌++◌, append-nil, append_assoc, Option,
  none, some, Option-cases, Text, arith, Bool-cases, inl, inr, ltb, length, ℕ,
}
use hauntty.Daemon.Resize.{TermSize}
use hauntty.Daemon.Clients.{Client, contains, find_client, close_out}
use hauntty.Daemon.Session.State.{
  Chunk, TermOp, feed, Loop, Screen, size, notify_all, pruned, prune_top, requeue, top, accept,
  opt_list,
}
use hauntty.Daemon.Session.Steps.{
  AttachSpec, Action, attach_req, detach_req, resize_req, kick_req, client_info_req, stop_req,
  Event, pty_output, pty_closed, feed_taken, feed_applied, client_ready, action, write, cut_off,
  attach, drop_client, detach, kick, resize_client, stop, exit, act, reads_pty, take_feed, turn,
  apply_feed, write_client, loop_turn, step,
}
use hauntty.Daemon.Session.Feed.{
  fed, fed-append, intake-arbitrate_resize, accepted-arbitrate_resize, intake-attach,
  accepted-attach, InStep,
}

attach-InStep :
    (screen : Screen) (spec : AttachSpec) (s : Loop) → InStep s → InStep (attach screen spec s).0
attach-InStep screen spec s h =
    intake-attach screen spec s ∙ (h ∙ sym (accepted-attach screen spec s))

drop_client-InStep :
    (change : Client → Client) (r : ℕ) (s : Loop) → InStep s → InStep (drop_client change r s)
unfolding drop_client notify_all
drop_client-InStep change r s h =
    intake-arbitrate_resize _ ∙ (h ∙ sym (accepted-arbitrate_resize _))

detach-InStep : (r : ℕ) (s : Loop) → InStep s → InStep (detach r s)
unfolding detach
detach-InStep r s h = elim (Bool-cases (contains r s.clients)) [
  | inl m ↦ rw m (drop_client-InStep close_out r s h)
  | inr m ↦ rw m h
]

kick-InStep : (id : Text) (s : Loop) → InStep s → InStep (kick id s).0
unfolding kick
kick-InStep id s h = elim (Option-cases (find_client s.clients id s.heap)) [
  | inl e ↦ rw (e, kick) h
  | inr (r, e) ↦ rw (e, kick) (drop_client-InStep cut_off r s h)
]

resize_client-InStep :
    (r : ℕ) (size : TermSize) (s : Loop) → InStep s → InStep (resize_client r size s)
unfolding resize_client
resize_client-InStep r size s h =
    intake-arbitrate_resize _ ∙ (h ∙ sym (accepted-arbitrate_resize _))

prune_top-InStep : (s : Loop) → InStep s → InStep (prune_top s)
unfolding prune_top notify_all
prune_top-InStep s h = elim (Bool-cases (pruned s).changed) [ inl e ↦ rw e h | inr e ↦ rw e h ]

requeue-InStep :
    (s : Loop) (o : Option Chunk) → s.pending_output ≡ o → InStep s → InStep (requeue s)
unfolding requeue
requeue-InStep s none e h = rw (e, requeue) h
requeue-InStep s (some chunk) e h = rw (e, requeue) h

top-InStep : (s : Loop) → InStep s → InStep (top s)
unfolding top
top-InStep s h =
    requeue-InStep (prune_top s) (prune_top s).pending_output refl (prune_top-InStep s h)

-- While the loop runs.
abbrev pub FeedInv : Loop → Type 0
FeedInv s = s.finished ≡ false → InStep s

act-FeedInv : (screen : Screen) (a : Action) (s : Loop) → InStep s → FeedInv (act screen a s).0
unfolding act stop
act-FeedInv screen (attach_req spec) s h = λ _. attach-InStep screen spec s h
act-FeedInv screen (detach_req r) s h = λ _. detach-InStep r s h
act-FeedInv screen (resize_req r size) s h = λ _. resize_client-InStep r size s h
act-FeedInv screen (kick_req id) s h = λ _. kick-InStep id s h
act-FeedInv screen client_info_req s h = λ _. h
act-FeedInv screen stop_req s h = λ e. cc

held-accepted :
    (xs ys acc : List Chunk) (o : Option Chunk) (d : Chunk)
    → o ≡ none
    → xs ++ (ys ++ opt_list o) ≡ acc
    → xs ++ (ys ++ d ∷ []) ≡ acc ++ d ∷ []
held-accepted xs ys acc none d e h = rw (← h, append-nil ys) (sym (append_assoc xs ys (d ∷ [])))
held-accepted xs ys acc (some held) d e h = cc

held-taken :
    (xs ys acc : List Chunk) (o : Option Chunk) (d : Chunk)
    → o ≡ some d
    → xs ++ (ys ++ opt_list o) ≡ acc
    → xs ++ ((ys ++ d ∷ []) ++ []) ≡ acc
held-taken xs ys acc o d e h =
    rw (append-nil (ys ++ d ∷ [])) (subst (λ held. xs ++ (ys ++ opt_list held) ≡ acc) e h)

feed-applied :
    (xs : List TermOp) (ys zs ds acc : List Chunk) (d : Chunk)
    → ys ≡ d ∷ ds
    → fed xs ++ (ys ++ zs) ≡ acc
    → fed (xs ++ feed d ∷ []) ++ (ds ++ zs) ≡ acc
unfolding fed
feed-applied xs ys zs ds acc d e h =
    rw (fed-append xs (feed d ∷ []), append_assoc (fed xs) (d ∷ []) (ds ++ zs))
      (subst (λ ys. fed xs ++ (ys ++ zs) ≡ acc) e h)

accept-InStep : (d : Chunk) (s : Loop) → s.pending_feed ≡ none → InStep s → InStep (accept d s)
unfolding accept
accept-InStep d s idle h = held-accepted (fed s.term) s.feed_ch s.accepted s.pending_feed d idle h

take_feed-InStep :
    (o : Option Chunk) (s : Loop) → s.pending_feed ≡ o → InStep s → InStep (take_feed o s)
unfolding take_feed
take_feed-InStep none s e h = h
take_feed-InStep (some d) s e h = elim (Bool-cases (ltb (length s.feed_ch) 64)) [
  | inl m ↦ rw m (held-taken (fed s.term) s.feed_ch s.accepted s.pending_feed d e h)
  | inr m ↦ rw m h
]

reads_pty-unfed : (s : Loop) → reads_pty s ≡ true → s.pending_feed ≡ none
reads_pty-unfed s e = ground arith

turn-FeedInv : (screen : Screen) (e : Event) (s : Loop) → InStep s → FeedInv (turn screen e s)
unfolding turn exit
turn-FeedInv screen (pty_output chunk) s h = elim (Bool-cases (reads_pty s)) [
  | inl ready ↦ rw ready (λ _. accept-InStep chunk s (reads_pty-unfed s ready) h)
  | inr busy ↦ rw busy (λ _. h)
]
turn-FeedInv screen (pty_closed code) s h = elim (Bool-cases (reads_pty s)) [
  | inl ready ↦ rw ready (λ e. cc)
  | inr busy ↦ rw busy (λ _. h)
]
turn-FeedInv screen feed_taken s h = λ _. take_feed-InStep s.pending_feed s refl h
turn-FeedInv screen (action a) s h = act-FeedInv screen a (prune_top s) (prune_top-InStep s h)
turn-FeedInv screen feed_applied s h = λ _. h
turn-FeedInv screen client_ready s h = λ _. h
turn-FeedInv screen (write r b) s h = λ _. h

loop_turn-FeedInv :
    (screen : Screen) (e : Event) (s : Loop) → FeedInv s → FeedInv (loop_turn screen e s)
unfolding loop_turn
loop_turn-FeedInv screen e s v = elim (Bool-cases s.finished) [
  | inl over ↦ simp over (λ goes. cc)
  | inr goes ↦ simp goes (turn-FeedInv screen e (top s) (top-InStep s (v goes)))
]

apply_feed-FeedInv :
    (ds : List Chunk) (s : Loop) → s.feed_ch ≡ ds → FeedInv s → FeedInv (apply_feed ds s)
unfolding apply_feed
apply_feed-FeedInv [] s e v = v
apply_feed-FeedInv (d ∷ ds) s e v =
    λ goes. feed-applied s.term s.feed_ch (opt_list s.pending_feed) ds s.accepted d e (v goes)

pub step-FeedInv : (screen : Screen) (e : Event) (s : Loop) → FeedInv s → FeedInv (step screen e s)
unfolding step write_client
step-FeedInv screen feed_applied s v = apply_feed-FeedInv s.feed_ch s refl v
step-FeedInv screen (write r b) s v = v
step-FeedInv screen (pty_output d) s v = loop_turn-FeedInv screen (pty_output d) s v
step-FeedInv screen (pty_closed code) s v = loop_turn-FeedInv screen (pty_closed code) s v
step-FeedInv screen feed_taken s v = loop_turn-FeedInv screen feed_taken s v
step-FeedInv screen client_ready s v = loop_turn-FeedInv screen client_ready s v
step-FeedInv screen (action a) s v = loop_turn-FeedInv screen (action a) s v
