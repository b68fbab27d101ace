-- ===== src/Daemon/Clients.antt =====
-- sessionClient of internal/daemon/session.go and the loops over clients of
-- internal/daemon/session_clients.go. A `*sessionClient` is a number, its object stands on a heap. A
-- send on a closed channel or a second close, which panics in Go, sets `fault`.
pub mod Laws
use hauntty.Prelude.{
  ℕ, ◌%◌, ◌^◌, Bool, true, false, not, ◌&&◌, ◌||◌, List, [], ◌∷◌, ◌++◌, Option, none, some, Text,
  text_eq, ltb, ◌==◌, if◌then◌else◌, length,
}
use hauntty.Protocol.Messages.{Message, SessionClient}
use hauntty.Daemon.Resize.{TermSize}

pub record Client : Type 0 where
  pub id : Text
  pub size : TermSize
  pub version : Text
  pub read_only : Bool
  -- The messages in the channel `outCh`, and whether it is closed.
  pub out_ch : List Message
  pub closed : Bool
  -- The channel `writeDone` is closed.
  pub write_done : Bool
  pub final : Option Message
  -- `closeConn` was called.
  pub conn_closed : Bool
  -- What the write loop has written to the connection.
  pub sent : List Message
  pub fault : Bool

abbrev pub Heap : Type 0
Heap = ℕ → Client

abbrev pub update : Heap → ℕ → Client → Heap
update h c v r = if r == c then v else h r

-- sessionClientOutBufferSize.
abbrev pub out_buffer_size : ℕ
out_buffer_size = 256

abbrev pub has_room : Client → Bool
has_room c = ltb (length c.out_ch) out_buffer_size

-- The select takes the send: there is room, or the channel is closed, and the send panics.
abbrev pub takes : Client → Bool
takes c = c.closed || has_room c

-- A send that the select takes, and `close(outCh)`.
unfoldable pub push : Message → Client → Client
push msg c =
    if c.closed then record c { fault = true } else record c { out_ch = c.out_ch ++ msg ∷ [] }

unfoldable pub close_out : Client → Client
close_out c = if c.closed then record c { fault = true } else record c { closed = true }

unfoldable pub contains : ℕ → List ℕ → Bool
contains r [] = false
contains r (c ∷ cs) = if r == c then true else contains r cs

unfoldable pub remove_client : List ℕ → ℕ → List ℕ
remove_client [] target = []
remove_client (c ∷ cs) target = if c == target then cs else c ∷ remove_client cs target

-- The body of queueOutput's loop: a client whose writer has ended is passed over, and a send to a
-- full channel leaves the client to the pending ones.
unfoldable pub queue_one : Message → Client → Client
queue_one msg c = if c.write_done then c else if takes c then push msg c else c

abbrev pub is_blocked : Client → Bool
is_blocked c = not c.write_done && not (takes c)

unfoldable pub queue_output : List ℕ → Message → Heap → Heap × List ℕ
queue_output [] msg h = (h, [])
queue_output (c ∷ cs) msg h =
    let rest = queue_output cs msg (update h c (queue_one msg (h c))) in
    (rest.0, if is_blocked (h c) then c ∷ rest.1 else rest.1)

-- The heap, the clients that are kept, the pending ones, and whether any was dropped.
pub record Pruned : Type 0 where
  pub heap : Heap
  pub kept : List ℕ
  pub pending : List ℕ
  pub changed : Bool

-- The body of pruneFinishedClients' loop closes the channel of a client whose writer has ended.
unfoldable pub finish : Client → Client
finish c = if c.write_done then close_out c else c

unfoldable pub prune_finished_clients : List ℕ → List ℕ → Heap → Pruned
prune_finished_clients [] pending h = record {
  heap = h;
  kept = [];
  pending = pending;
  changed = false;
}
prune_finished_clients (c ∷ cs) pending h =
    let done = (h c).write_done in
    let rest =
      prune_finished_clients cs (if done then remove_client pending c else pending)
        (update h c (finish (h c))) in
    record rest { kept = if done then rest.kept else c ∷ rest.kept; changed = done || rest.changed }

-- `select { case c.outCh <- msg: default: }` for each client.
unfoldable pub notify_one : Message → Client → Client
notify_one msg c = if takes c then push msg c else c

unfoldable pub notify : List ℕ → Message → Heap → Heap
notify [] msg h = h
notify (c ∷ cs) msg h = notify cs msg (update h c (notify_one msg (h c)))

-- notifyClientsChanged; `count` is a uint16.
unfoldable pub notify_clients_changed : List ℕ → ℕ × ℕ → Heap → Heap
unfolding notify
notify_clients_changed clients (cols, rows) h =
    notify clients
      (Message.clients_changed
        (record { count = length clients % 2 ^ 16; cols = cols; rows = rows }))
      h

unfoldable pub collect_client_sizes : List ℕ → Heap → List TermSize
collect_client_sizes [] h = []
collect_client_sizes (c ∷ cs) h =
    let rest = collect_client_sizes cs h in if (h c).read_only then rest else (h c).size ∷ rest

-- The target of a kick: the first client with that id.
unfoldable pub find_client : List ℕ → Text → Heap → Option ℕ
find_client [] id h = none
find_client (c ∷ cs) id h = if text_eq (h c).id id then some c else find_client cs id h

-- The answer to a `clientInfoReq`.
unfoldable pub client_info : List ℕ → Heap → List SessionClient
client_info [] h = []
client_info (c ∷ cs) h =
    record { client_id = (h c).id; read_only = (h c).read_only; version = (h c).version }
    ∷ client_info cs h

-- The final message, when the channel is closed and empty.
unfoldable pub write_final : Option Message → Bool → Client → Client
write_final none succeeds c = record c { write_done = true }
write_final (some msg) succeeds c =
    if succeeds
    then record c { write_done = true; sent = c.sent ++ msg ∷ [] }
    else record c { write_done = true; conn_closed = true }

-- One turn of `writeLoop`, by what stands in the channel: the next message goes to the connection, or
-- the write fails and the loop ends; it ends on a channel that is closed and empty too.
unfoldable pub write_turn : List Message → Bool → Client → Client
unfolding write_final
write_turn [] succeeds c = if c.closed then write_final c.final succeeds c else c
write_turn (msg ∷ rest) succeeds c =
    if succeeds
    then record c { out_ch = rest; sent = c.sent ++ msg ∷ [] }
    else record c { out_ch = rest; write_done = true; conn_closed = true }

unfoldable pub write_step : Bool → Client → Client
unfolding write_turn
write_step succeeds c = if c.write_done then c else write_turn c.out_ch succeeds c
