-- ===== src/Daemon/Session/State.antt =====
-- The state of `Session` and of its run loop, internal/daemon/session.go and session_lifecycle.go, and
-- what each turn of the loop begins with; the resizing of session_clients.go.
use hauntty.Prelude.{
  ℕ, Bool, ◌&&◌, List, [], ◌∷◌, ◌++◌, map, Option, none, some, Text, ◌==◌, if◌then◌else◌,
}
use hauntty.Protocol.Messages.{Message}
use hauntty.Daemon.Resize.{TermSize, apply_resize_policy, pack_size, unpack_size}
use hauntty.Daemon.Clients.{
  Client, Heap, update, queue_output, Pruned, prune_finished_clients, notify_clients_changed,
  collect_client_sizes,
}

-- A chunk of output of the pty.
abbrev pub Chunk : Type 0
Chunk = List ℕ

-- What is done to the terminal: `feed` and `resize` of terminal_state.go.
pub data TermOp : Type 0 where
  feed : Chunk → TermOp
  resize_to : ℕ → ℕ → TermOp

pub record ScreenDump : Type 0 where
  pub bytes : List ℕ
  pub cursor_row : ℕ
  pub cursor_col : ℕ
  pub is_alt_screen : Bool

-- `dumpScreen(terminalFormatVTFull)`; `none` is its error.
abbrev pub Screen : Type 0
Screen = List TermOp → Option ScreenDump

-- The session, with the variables of `run`.
pub record Loop : Type 0 where
  pub name : Text
  pub pid : ℕ
  pub resize_policy : Text
  pub size_val : ℕ
  pub pty_size : TermSize
  -- The objects of all clients, and the number of the next one.
  pub heap : Heap
  pub next_ref : ℕ
  pub clients : List ℕ
  pub next_client_id : ℕ
  -- `feedCh`, and what was done to the terminal.
  pub feed_ch : List Chunk
  pub term : List TermOp
  pub pending_feed : Option Chunk
  pub pending_output : Option Chunk
  pub pending_clients : List ℕ
  -- `run` has returned.
  pub finished : Bool
  -- All chunks that the loop took from the pty, and how many there were when each client attached.
  pub accepted : List Chunk
  pub started : ℕ → ℕ

abbrev pub size : Loop → ℕ × ℕ
size s = unpack_size s.size_val

abbrev pub output : Chunk → Message
output d = Message.output (record { payload = d })

-- Session.resize.
unfoldable pub resize : TermSize → Loop → Loop
resize target s = record s {
  size_val = pack_size target.cols target.rows;
  pty_size = target;
  term = s.term ++ resize_to target.cols target.rows ∷ [];
}

-- Resize if the target differs from the current size in columns or rows.
unfoldable pub resize_if_changed : Option TermSize → Loop → Loop
resize_if_changed none s = s
resize_if_changed (some target) s =
    if target.cols == (size s).0 && target.rows == (size s).1 then s else resize target s

unfoldable pub arbitrate_sizes : List TermSize → Loop → Loop
unfolding resize_if_changed
arbitrate_sizes [] s = s
arbitrate_sizes (c ∷ sizes) s =
    resize_if_changed (apply_resize_policy s.resize_policy (c ∷ sizes)) s

unfoldable pub arbitrate_resize : Loop → Loop
unfolding arbitrate_sizes
arbitrate_resize s = arbitrate_sizes (collect_client_sizes s.clients s.heap) s

unfoldable pub resize_for_pending : TermSize → Loop → Loop
unfolding resize_if_changed
resize_for_pending pending s =
    resize_if_changed
      (apply_resize_policy s.resize_policy (collect_client_sizes s.clients s.heap ++ pending ∷ []))
      s

unfoldable pub notify_all : Loop → Loop
notify_all s = record s { heap = notify_clients_changed s.clients (size s) s.heap }

-- `if len(pendingClients) == 0 { pendingOutput = nil }`
abbrev pub still_pending : List ℕ → Option Chunk → Option Chunk
still_pending [] d = none
still_pending (c ∷ cs) d = d

abbrev pub clear_output : Loop → Loop
clear_output s = record s { pending_output = still_pending s.pending_clients s.pending_output }

abbrev pub pruned : Loop → Pruned
pruned s = prune_finished_clients s.clients s.pending_clients s.heap

abbrev drop_finished : Loop → Loop
drop_finished s = record s {
  heap = (pruned s).heap;
  clients = (pruned s).kept;
  pending_clients = (pruned s).pending;
}

unfoldable pub prune_top : Loop → Loop
prune_top s =
    clear_output (if (pruned s).changed then notify_all (drop_finished s) else drop_finished s)

-- Offer the pending output again to the clients that could not take it.
unfoldable pub requeue : Loop → Loop
requeue s = elim s.pending_output [
  | none ↦ s
  | some d ↦
      let q = queue_output s.pending_clients (output d) s.heap in
      clear_output (record s { heap = q.0; pending_clients = q.1 })
]

-- What each turn begins with.
unfoldable pub top : Loop → Loop
top s = requeue (prune_top s)

-- `case data := <-ptyCh`; the channel is nil while anything is pending.
unfoldable pub accept : Chunk → Loop → Loop
accept d s =
    let q = queue_output s.clients (output d) s.heap in
    record s {
      heap = q.0;
      pending_clients = q.1;
      pending_output = still_pending q.1 (some d);
      pending_feed = some d;
      accepted = s.accepted ++ d ∷ [];
    }

abbrev pub opt_list : Option Chunk → List Chunk
opt_list none = []
opt_list (some d) = d ∷ []

-- Hand the pending feed over, and wait until the terminal has taken all.
unfoldable pub flush : Loop → Loop
flush s = record s {
  term = s.term ++ map feed (s.feed_ch ++ opt_list s.pending_feed);
  feed_ch = [];
  pending_feed = none;
}

-- A function applied to the object of each client.
unfoldable pub for_each : (Client → Client) → List ℕ → Heap → Heap
for_each f [] h = h
for_each f (c ∷ cs) h = for_each f cs (update h c (f (h c)))
