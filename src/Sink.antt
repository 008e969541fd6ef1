-- ===== src/Sink.antt =====
-- base/src/net/rw.rs: the sinks that a peer's packets are written to, `QueuedTcpSink` with the task
-- that serves its channel, and `DirectTcpSink`.
use pigs.Prelude.{
  ℕ, ◌+◌, max, Bool, true, false, ◌||◌, not, List, [], ◌∷◌, ◌++◌, leb, if◌then◌else◌, length,
  Option, none, some,
}
use pigs.Packet.{
  Outcome, ok, refused, panicked, EncodedPacket, Answer, Progress, finished, errored, pending,
  write_encoded_packet,
}
pub mod Bytes
pub mod Runs
pub mod Reading
pub mod Delivery
pub mod Direct
pub mod Closed
mod Tests

pub data TcpWriteMode : Type 0 where
  queued_mode : (queue_size : ℕ) → TcpWriteMode
  direct_mode : TcpWriteMode

abbrev pub tcp_write_queue_size : ℕ
tcp_write_queue_size = 1024

unfoldable pub default_mode : TcpWriteMode
default_mode = queued_mode tcp_write_queue_size

unfoldable pub queue_size : TcpWriteMode → Option ℕ
queue_size (queued_mode n) = some (max n 1)
queue_size direct_mode = none

-- What a write returns.
pub data Written : Type 0 where
  written : Written
  sink_closed : Written
  channel_closed : Written
  channel_full : Written
  not_encoded : Written
  stream_failed : Written
  direct_needs_async : Written
  write_panicked : Written

-- The channel of a queued sink with the token of its connection. `receiving` says that the task has
-- its end of the channel.
pub record QueuedTcpSink : Type 0 where
  pub capacity : ℕ
  pub queue : List EncodedPacket
  pub receiving : Bool
  pub cancel : Bool

unfoldable pub is_closed : QueuedTcpSink → Bool
is_closed q = q.cancel || not q.receiving

unfoldable pub push : QueuedTcpSink → EncodedPacket → QueuedTcpSink
push q packet = record q { queue = q.queue ++ packet ∷ [] }

-- `try_send` of the bounded channel.
unfoldable pub try_send : QueuedTcpSink → EncodedPacket → Written × QueuedTcpSink
try_send q packet =
    if not q.receiving
    then (channel_closed, q)
    else if leb q.capacity (length q.queue)
    then (channel_full, q)
    else (written, push q packet)

unfoldable pub try_encoded : QueuedTcpSink → Outcome EncodedPacket → Written × QueuedTcpSink
try_encoded q (ok packet) = try_send q packet
try_encoded q refused = (not_encoded, q)
try_encoded q panicked = (write_panicked, q)

-- A write up to its `select!`: it ends early, or goes on with a packet.
pub data Begun : Type 0 where
  ends_early : Written → Begun
  goes_on : EncodedPacket → Begun

unfoldable pub begin_encoded : Outcome EncodedPacket → Begun
begin_encoded (ok packet) = goes_on packet
begin_encoded refused = ends_early not_encoded
begin_encoded panicked = ends_early write_panicked

-- A turn of the `select!`, which is biased; `none` when it goes on waiting for room.
unfoldable pub write_turn : QueuedTcpSink → EncodedPacket → Option Written × QueuedTcpSink
write_turn q packet =
    if q.cancel
    then (some sink_closed, q)
    else if not q.receiving
    then (some channel_closed, q)
    else if leb q.capacity (length q.queue)
    then (none, q)
    else (some written, push q packet)

module _ (encode_tcp : List ℕ → Outcome EncodedPacket) where
  unfoldable pub try_write : QueuedTcpSink → List ℕ → Written × QueuedTcpSink
  try_write q payload = if q.cancel then (sink_closed, q) else try_encoded q (encode_tcp payload)

  unfoldable pub begin_write : Bool → List ℕ → Begun
  begin_write cancel payload =
      if cancel then ends_early sink_closed else begin_encoded (encode_tcp payload)

-- `handle_tcp_write`: it serves the channel, waits in a write that the stream does not answer, or is
-- over. `sent` are the bytes that the stream took.
pub data Phase : Type 0 where
  serving : Phase
  waiting : Phase
  over : Phase

pub record Line : Type 0 where
  pub sink : QueuedTcpSink
  pub sent : List ℕ
  pub phase : Phase

unfoldable pub open_line : ℕ → Line
open_line capacity = record {
  sink = record { capacity = capacity; queue = []; receiving = true; cancel = false };
  sent = [];
  phase = serving;
}

-- What follows the loop.
unfoldable pub leave_loop : Line → Line
leave_loop l = record l {
  sink = record (l.sink) { queue = []; receiving = false; cancel = true };
  phase = over;
}

-- The channel answers `None` when its senders are gone and no packet is left.
unfoldable pub leave_if_empty : Line → List EncodedPacket → Line
leave_if_empty l [] = leave_loop l
leave_if_empty l (packet ∷ queue) = l

unfoldable pub after_write : Line → Progress → Line
after_write l finished = l
after_write l errored = leave_loop l
after_write l pending = record l { phase = waiting }

-- What happens at a line: a `try_write`, a turn of a `write` that goes on, a close, and in the task
-- a received packet with the stream's answers, or one of the two ends of its loop.
pub data Event : Type 0 where
  tries : (payload : List ℕ) → Event
  turns : (payload : List ℕ) → Event
  closes : Event
  serves : List Answer → Event
  cancelled : Event
  senders_gone : Event

unfoldable pub close : QueuedTcpSink → QueuedTcpSink
close q = record q { cancel = true }

-- `write_all` of the runtime's library.
module _ (write_all : List Answer → List ℕ → List ℕ × Progress) where
  unfoldable pub serve_packet : Line → List Answer → List EncodedPacket → Line
  serve_packet l answers [] = l
  serve_packet l answers (packet ∷ queue) =
      let r = write_encoded_packet write_all answers packet in
      after_write (record l { sink = record (l.sink) { queue = queue }; sent = l.sent ++ r.0 }) r.1

  -- The task's rounds, which are its own only while it serves.
  unfoldable pub task_round : Phase → Line → Event → Line
  task_round serving l (serves answers) = serve_packet l answers l.sink.queue
  task_round serving l cancelled = if l.sink.cancel then leave_loop l else l
  task_round serving l senders_gone = leave_if_empty l l.sink.queue
  task_round serving l (tries payload) = l
  task_round serving l (turns payload) = l
  task_round serving l closes = l
  task_round waiting l event = l
  task_round over l event = l

unfoldable pub turn_encoded : QueuedTcpSink → Outcome EncodedPacket → Option Written × QueuedTcpSink
turn_encoded q (ok packet) = write_turn q packet
turn_encoded q refused = (none, q)
turn_encoded q panicked = (none, q)

module _ (encode_tcp : List ℕ → Outcome EncodedPacket)
    (write_all : List Answer → List ℕ → List ℕ × Progress) where
  -- What a client is told, and the line after the event.
  unfoldable pub step : Line → Event → Option Written × Line
  step l (tries payload) =
      let r = try_write encode_tcp l.sink payload in (some r.0, record l { sink = r.1 })
  step l (turns payload) =
      let r = turn_encoded l.sink (encode_tcp payload) in (r.0, record l { sink = r.1 })
  step l closes = (none, record l { sink = close l.sink })
  step l (serves answers) = (none, task_round write_all l.phase l (serves answers))
  step l cancelled = (none, task_round write_all l.phase l cancelled)
  step l senders_gone = (none, task_round write_all l.phase l senders_gone)

-- A direct sink: its token and the bytes that its stream took. The lock of the stream makes the
-- writes one step each.
pub record DirectTcpSink : Type 0 where
  pub sent : List ℕ
  pub cancel : Bool

unfoldable pub after_direct : DirectTcpSink → Progress → Written × DirectTcpSink
after_direct d finished = (written, d)
after_direct d errored = (stream_failed, record d { cancel = true })
after_direct d pending = (sink_closed, record d { cancel = true })

module _ (write_all : List Answer → List ℕ → List ℕ × Progress) where
  -- The write with the lock. One that the stream does not answer ends when the token is cancelled.
  unfoldable pub write_locked :
      DirectTcpSink → List Answer → EncodedPacket → Written × DirectTcpSink
  write_locked d answers packet =
      let r = write_encoded_packet write_all answers packet in
      if d.cancel then (sink_closed, d) else after_direct (record d { sent = d.sent ++ r.0 }) r.1

  unfoldable pub direct_encoded :
      DirectTcpSink → List Answer → Outcome EncodedPacket → Written × DirectTcpSink
  direct_encoded d answers (ok packet) = write_locked d answers packet
  direct_encoded d answers refused = (not_encoded, d)
  direct_encoded d answers panicked = (write_panicked, d)

  -- A write whose future the client drops while the stream has not answered: what the stream took
  -- stays there, and the rest of `write` does not run.
  unfoldable pub after_drop : DirectTcpSink → Progress → DirectTcpSink
  after_drop d finished = d
  after_drop d errored = record d { cancel = true }
  after_drop d pending = d

  unfoldable pub drop_locked : DirectTcpSink → List Answer → EncodedPacket → DirectTcpSink
  drop_locked d answers packet =
      let r = write_encoded_packet write_all answers packet in
      if d.cancel then d else after_drop (record d { sent = d.sent ++ r.0 }) r.1

  unfoldable pub drop_encoded : DirectTcpSink → List Answer → Outcome EncodedPacket → DirectTcpSink
  drop_encoded d answers (ok packet) = drop_locked d answers packet
  drop_encoded d answers refused = d
  drop_encoded d answers panicked = d

-- What happens at a direct sink: a write that has found it open gets the lock, and is awaited to its
-- end or dropped before; or the sink is closed or shut down.
pub data DirectEvent : Type 0 where
  locks : (payload : List ℕ) → List Answer → DirectEvent
  drops : (payload : List ℕ) → List Answer → DirectEvent
  shuts : DirectEvent

unfoldable pub shut : DirectTcpSink → DirectTcpSink
shut d = record d { cancel = true }

module _ (encode_tcp : List ℕ → Outcome EncodedPacket)
    (write_all : List Answer → List ℕ → List ℕ × Progress) where
  unfoldable pub direct_step : DirectTcpSink → DirectEvent → Option Written × DirectTcpSink
  direct_step d (locks payload answers) =
      let r = direct_encoded write_all d answers (encode_tcp payload) in (some r.0, r.1)
  direct_step d (drops payload answers) =
      (none, drop_encoded write_all d answers (encode_tcp payload))
  direct_step d shuts = (none, shut d)
