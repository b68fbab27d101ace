-- ===== src/Daemon/Session/Steps.antt =====
-- The select of `run` in internal/daemon/session_lifecycle.go. One `step` is one turn of the loop, of
-- `feedLoop` or of a client's `writeLoop`; the event says which, and what the pty or a caller sent.
-- libghostty's terminal is the parameter `screen`: the dump after what was done to the terminal.
use hauntty.Prelude.{
  ℕ, suc, ◌+◌, ◌%◌, ◌^◌, Bool, true, false, List, [], ◌∷◌, ◌++◌, Option, none, some, Text, ℤ, ltb,
  ◌==◌, if◌then◌else◌, length,
}
use hauntty.Protocol.Messages.{Message, SessionClient}
use hauntty.Daemon.Resize.{TermSize}
use hauntty.Daemon.Clients.{
  Client, update, close_out, contains, remove_client, find_client, client_info, write_step,
}
use hauntty.Daemon.Session.Decimal.{decimal}
use hauntty.Daemon.Session.State.{
  Chunk, ScreenDump, Screen, feed, Loop, size, arbitrate_resize, resize_for_pending, notify_all,
  prune_top, top, clear_output, accept, flush, for_each,
}

-- sessionAttachSpec, less the connection.
pub record AttachSpec : Type 0 where
  pub size : TermSize
  pub version : Text
  pub read_only : Bool
  pub created : Bool

-- A sessionAction.
pub data Action : Type 0 where
  attach_req : AttachSpec → Action
  detach_req : ℕ → Action
  resize_req : ℕ → TermSize → Action
  kick_req : Text → Action
  client_info_req stop_req : Action

-- What an action sends to its result channel.
pub data Reply : Type 0 where
  no_reply attach_failed : Reply
  attached_client : ℕ → Reply
  kicked : Bool → Reply
  info : List SessionClient → Reply

-- The new client; `Attached` is the first message in its channel.
unfoldable pub new_client : AttachSpec → ScreenDump → Loop → Client
new_client spec dump s = record {
  id = decimal s.next_client_id;
  size = spec.size;
  version = spec.version;
  read_only = spec.read_only;
  out_ch =
      Message.attached (record {
        name = s.name;
        pid = s.pid;
        client_id = decimal s.next_client_id;
        cols = (size s).0;
        rows = (size s).1;
        screen_dump = dump.bytes;
        cursor_row = dump.cursor_row;
        cursor_col = dump.cursor_col;
        alt_screen = dump.is_alt_screen;
        created = spec.created;
      })
      ∷ [];
  closed = false;
  write_done = false;
  final = none;
  conn_closed = false;
  sent = [];
  fault = false;
}

-- `nextClientID++`, on a uint64.
unfoldable pub count_client : Loop → Loop
count_client s = record s { next_client_id = (s.next_client_id + 1) % 2 ^ 64 }

unfoldable pub add_client : Client → Loop → Loop
add_client c s = record s {
  heap = update s.heap s.next_ref c;
  next_ref = suc s.next_ref;
  clients = s.clients ++ s.next_ref ∷ [];
  started = λ r. if r == s.next_ref then length s.accepted else s.started r;
}

-- The loop's state when the dump is taken.
unfoldable pub before_dump : AttachSpec → Loop → Loop
before_dump spec s = flush (if spec.read_only then s else resize_for_pending spec.size s)

unfoldable pub after_dump : AttachSpec → ScreenDump → Loop → Loop
after_dump spec dump s =
    let counted = count_client s in
    let added = add_client (new_client spec dump counted) counted in
    notify_all (if spec.read_only then added else arbitrate_resize added)

unfoldable pub attach : Screen → AttachSpec → Loop → Loop × Reply
attach screen spec s =
    let ready = before_dump spec s in
    elim (screen ready.term) [
      | none ↦ (ready, attach_failed)
      | some dump ↦ (after_dump spec dump ready, attached_client ready.next_ref)
    ]

-- What detach and kick share: `change` closes the channel, and for a kick the connection too.
unfoldable pub drop_client : (Client → Client) → ℕ → Loop → Loop
drop_client change r s = notify_all (
    arbitrate_resize (
      clear_output (record s {
        heap = update s.heap r (change (s.heap r));
        clients = remove_client s.clients r;
        pending_clients = remove_client s.pending_clients r;
      })))

unfoldable pub detach : ℕ → Loop → Loop
detach r s = if contains r s.clients then drop_client close_out r s else s

-- Close the channel, then the connection.
unfoldable pub cut_off : Client → Client
cut_off c = record (close_out c) { conn_closed = true }

unfoldable pub kick : Text → Loop → Loop × Reply
kick id s = elim (find_client s.clients id s.heap) [
  | none ↦ (s, kicked false)
  | some r ↦ (drop_client cut_off r s, kicked true)
]

unfoldable pub resize_client : ℕ → TermSize → Loop → Loop
resize_client r new_size s =
    arbitrate_resize (record s { heap = update s.heap r (record (s.heap r) { size = new_size }) })

-- `stopReq`: the pending feed is dropped, the rest is fed, and every client is cut off.
unfoldable pub stop : Loop → Loop
stop s =
    let fed = flush (record s { pending_feed = none }) in
    record fed { heap = for_each cut_off fed.clients fed.heap; finished = true }

-- The pty's channel is closed: all is fed, and every client gets the exit code last.
unfoldable pub leave : Message → Client → Client
leave msg c = close_out (record c { final = some msg })

unfoldable pub exit : ℤ → Loop → Loop
exit code s =
    let fed = flush s in
    record fed {
      heap = for_each (leave (Message.exited (record { exit_code = code }))) fed.clients fed.heap;
      finished = true;
    }

unfoldable pub act : Screen → Action → Loop → Loop × Reply
act screen (attach_req spec) s = attach screen spec s
act screen (detach_req r) s = (detach r s, no_reply)
act screen (resize_req r new_size) s = (resize_client r new_size s, no_reply)
act screen (kick_req id) s = kick id s
act screen client_info_req s = (s, info (client_info s.clients s.heap))
act screen stop_req s = (stop s, no_reply)

pub data Event : Type 0 where
  pty_output : Chunk → Event
  pty_closed : ℤ → Event
  feed_taken feed_applied client_ready : Event
  action : Action → Event
  write : ℕ → Bool → Event

-- The pty's channel is read only while nothing is pending.
abbrev pub reads_pty : Loop → Bool
reads_pty s = elim s.pending_feed [
  | none ↦ elim s.pending_output [ none ↦ true | some d ↦ false ]
  | some d ↦ false
]

unfoldable pub take_feed : Option Chunk → Loop → Loop
take_feed none s = s
take_feed (some d) s =
    if ltb (length s.feed_ch) 64
    then record s { feed_ch = s.feed_ch ++ d ∷ []; pending_feed = none }
    else s

-- The turn of `run`, behind what each turn begins with. A case that is not ready changes nothing.
unfoldable pub turn : Screen → Event → Loop → Loop
turn screen (pty_output d) s = if reads_pty s then accept d s else s
turn screen (pty_closed code) s = if reads_pty s then exit code s else s
turn screen feed_taken s = take_feed s.pending_feed s
turn screen (action a) s = (act screen a (prune_top s)).0
turn screen _ s = s

-- `feedLoop` takes the next chunk.
unfoldable pub apply_feed : List Chunk → Loop → Loop
apply_feed [] s = s
apply_feed (d ∷ rest) s = record s { feed_ch = rest; term = s.term ++ feed d ∷ [] }

unfoldable pub write_client : ℕ → Bool → Loop → Loop
write_client r succeeds s = record s { heap = update s.heap r (write_step succeeds (s.heap r)) }

-- A loop that has returned takes no more turns; what is in the channels is still written.
unfoldable pub loop_turn : Screen → Event → Loop → Loop
loop_turn screen e s = if s.finished then s else turn screen e (top s)

unfoldable pub step : Screen → Event → Loop → Loop
step screen feed_applied s = apply_feed s.feed_ch s
step screen (write r succeeds) s = write_client r succeeds s
step screen e s = loop_turn screen e s

unfoldable pub run : Screen → List Event → Loop → Loop
run screen [] s = s
run screen (e ∷ es) s = run screen es (step screen e s)
