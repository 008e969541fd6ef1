-- ===== src/Reader.antt =====
-- base/src/net/rw.rs: the task that reads the packets of a connection.
use pigs.Prelude.{ℕ, Bool, false, List, [], ◌∷◌, ◌++◌, ltb, if◌then◌else◌, length, ◌*◌}
use pigs.Writer.{PacketWriter, TcpWriterRegistration, remove_registered_tcp_writer}
pub mod Limits
pub mod Ends
mod Tests

abbrev pub max_buf_size : ℕ
max_buf_size = 2 * 1024 * 1024

-- What the `select!` of the loop sees.
pub data Seen : Type 0 where
  read : (bytes : List ℕ) → Seen
  read_failed : Seen
  cancelled : Seen

-- The buffer of the task, its splitter and the dispatcher.
pub record Reading (S D : Type 0) : Type 0 where
  pub buf : List ℕ
  pub splitter : S
  pub dispatcher : D

-- How a round of the loop ends.
pub data Turn : Type 0 where
  goes_on : Turn
  breaks : Turn
  returns_error : Turn

-- `feed_owned` is a splitter's, which gives the packets to the function; `dispatch_owned` and
-- `close` are a dispatcher's. A result is `true` when it is not an error.
module _ {S D : Type 0}
    (feed_owned : S → List ℕ → (D → List ℕ → Bool × D) → D → Bool × S × List ℕ × D)
    (dispatch_owned : D → List ℕ → Bool × D) where
  unfoldable pub feed : Reading S D → Turn × Reading S D
  feed r =
      let f = feed_owned r.splitter r.buf dispatch_owned r.dispatcher in
      (
        if f.0 then goes_on else returns_error,
        record { buf = f.2; splitter = f.1; dispatcher = f.3 },
      )

  -- A round of the loop that has read: nothing at the end of the stream.
  unfoldable pub after_read : Reading S D → List ℕ → Turn × Reading S D
  after_read r [] = (breaks, r)
  after_read r (b ∷ bytes) =
      let filled : Reading S D = record r { buf = r.buf ++ b ∷ bytes } in
      if ltb max_buf_size (length filled.buf) then (breaks, filled) else feed filled

  unfoldable pub read_round : Reading S D → Seen → Turn × Reading S D
  read_round r (read bytes) = after_read r bytes
  read_round r read_failed = (breaks, r)
  read_round r cancelled = (breaks, r)

  unfoldable pub next_rounds : Turn × Reading S D → Turn × Reading S D → Turn × Reading S D
  next_rounds (goes_on, r) rest = rest
  next_rounds (breaks, r) rest = (breaks, r)
  next_rounds (returns_error, r) rest = (returns_error, r)

  -- The loop; `goes_on` when it has met all that was seen.
  unfoldable pub read_loop : Reading S D → List Seen → Turn × Reading S D
  read_loop r [] = (goes_on, r)
  read_loop r (seen ∷ more) =
      let round = read_round r seen in next_rounds round (read_loop round.1 more)

-- The task is still reading, or has returned.
pub data Task : Type 0 where
  reads_on : Task
  returned : (is_ok : Bool) → Task

-- What follows the loop, with the registry at that time. `SocketAddr::ip` is the standard library's.
module _ {S D : Type 0} (ip_of : ℕ → ℕ) (close_peer : D → Bool × D) where
  unfoldable pub leave :
      PacketWriter → TcpWriterRegistration → Turn × Reading S D → Task × PacketWriter × Reading S D
  leave w registration (goes_on, r) = (reads_on, w, r)
  leave w registration (returns_error, r) = (returned false, w, r)
  leave w registration (breaks, r) =
      let closed = close_peer r.dispatcher in
      (
        returned closed.0,
        remove_registered_tcp_writer ip_of w registration,
        record r { dispatcher = closed.1 },
      )
