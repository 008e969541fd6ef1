-- ===== src/Writer/Waits.antt =====
-- base/src/net/rw.rs: `wait_tcp_sink`, a task that waits for a peer's writer, beside the tasks that
-- register and remove it. The registry is that of one address here.
use pigs.Prelude.{
  ℕ, zero, suc, ◌+◌, Bool, true, Option, none, some, List, [], ◌∷◌, ltb, ◌==◌, if◌then◌else◌,
}
use pigs.Writer.{TcpPacketSink}
pub mod Wakeups
mod Tests

-- The sink of the address, how often `tcp_writer_ready` was notified, how many tasks have registered
-- a writer and not notified yet, the closed flag, and whether the deadline has passed.
pub record Peer : Type 0 where
  pub sink : Option TcpPacketSink
  pub notified : ℕ
  pub to_notify : ℕ
  pub closed : Bool
  pub late : Bool

pub data WaitError : Type 0 where
  zero_timeout : WaitError
  writer_closed : WaitError
  timed_out : WaitError

-- The points of the loop between two atomic steps: before `ensure_open`, before each of the two
-- look-ups and the making of `notified`, and in the `select!`. A `notified` wakes when there was a
-- notification since it was made.
pub data Point : Type 0 where
  starts : Point
  looks : Point
  listens : Point
  looks_again : (seen : ℕ) → Point
  waits : (seen : ℕ) → Point
  returns_sink : TcpPacketSink → Point
  returns_error : WaitError → Point

unfoldable pub found_or : Option TcpPacketSink → Point → Point
found_or (some sink) otherwise = returns_sink sink
found_or none otherwise = otherwise

-- A step of the waiting task; in the `select!` it may find nothing to do.
unfoldable pub wait_step : Peer → Point → Point
wait_step p starts = if p.closed then returns_error writer_closed else looks
wait_step p looks = found_or p.sink listens
wait_step p listens = looks_again p.notified
wait_step p (looks_again seen) = found_or p.sink (waits seen)
wait_step p (waits seen) =
    if p.closed
    then returns_error writer_closed
    else if ltb seen p.notified
    then starts
    else if p.late
    then returns_error timed_out
    else waits seen
wait_step p (returns_sink sink) = returns_sink sink
wait_step p (returns_error error) = returns_error error

unfoldable pub wait_tcp_sink : (timeout : ℕ) → Point
wait_tcp_sink timeout = if timeout == 0 then returns_error zero_timeout else starts

-- What happens: a step of the waiting task, or one of another task at the registry.
pub data Happens : Type 0 where
  waiter : Happens
  registers : TcpPacketSink → Happens
  notifies : Happens
  removes : Happens
  closes : Happens
  passes : Happens

unfoldable pub notify_waiters : Peer → (to_notify : ℕ) → Peer
notify_waiters p zero = p
notify_waiters p (suc n) = record p { notified = p.notified + 1; to_notify = n }

unfoldable pub peer_step : Peer × Point → Happens → Peer × Point
peer_step (p, at) waiter = (p, wait_step p at)
peer_step (p, at) (registers sink) =
    (record p { sink = some sink; to_notify = p.to_notify + 1 }, at)
peer_step (p, at) notifies = (notify_waiters p p.to_notify, at)
peer_step (p, at) removes = (record p { sink = none }, at)
peer_step (p, at) closes = (record p { closed = true }, at)
peer_step (p, at) passes = (record p { late = true }, at)

unfoldable pub peer_steps : Peer × Point → List Happens → Peer × Point
peer_steps s [] = s
peer_steps s (h ∷ hs) = peer_steps (peer_step s h) hs
