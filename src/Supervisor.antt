-- ===== src/Supervisor.antt =====
-- base_rpc/src/stream_supervisor.rs and base_rpc/src/retry.rs: the loop that keeps a stream
-- connected, and the state that it shows.
use pigs.Prelude.{
  ℕ, ◌+◌, ◌-◌, ◌^◌, min, leb, Bool, true, false, ◌||◌, Option, none, some, List, [], ◌∷◌, ◌==◌,
  if◌then◌else◌, update,
}
pub mod Shown
pub mod Ending
mod Tests

-- The reason of a disconnection is the error's text, or none if the connection ended without one.
pub data ConnectionState : Type 0 where
  idle : ConnectionState
  connecting : (generation attempt : ℕ) → ConnectionState
  connected : (generation : ℕ) → ConnectionState
  disconnected : (generation : ℕ) (reason : Option ℕ) → ConnectionState
  stopped : ConnectionState

-- `RetryPolicy` without the delays, which are floating point numbers.
pub record RetryPolicy : Type 0 where
  pub max_attempts : Option ℕ

unfoldable pub permits : RetryPolicy → ℕ → Bool
permits retry attempt = elim retry.max_attempts [ none ↦ true | some most ↦ leb attempt most ]

-- Where the task stands: before a round, in `connect_and_run`, in the `select!` of the delay, or at
-- its end.
pub data Phase : Type 0 where
  starting : Phase
  running : Phase
  delayed : Phase
  ended : Phase

-- `state` is the value of the watch channel; `watched` says that it has a receiver, without which a
-- value is not sent; `pending` counts, by generation, the reporters that have found themselves
-- current and have not yet sent.
pub record Supervisor : Type 0 where
  pub phase : Phase
  pub generation : ℕ
  pub attempt : ℕ
  pub state : ConnectionState
  pub watched : Bool
  pub cancel : Bool
  pub pending : ℕ → ℕ

unfoldable pub spawn : Supervisor
spawn = record {
  phase = starting;
  generation = 0;
  attempt = 0;
  state = idle;
  watched = true;
  cancel = false;
  pending = λ g. 0;
}

unfoldable pub send : Supervisor → ConnectionState → Supervisor
send s state = record s { state = if s.watched then state else s.state }

-- What follows the loop.
unfoldable pub finish : Supervisor → Supervisor
finish s = send (record s { phase = ended }) stopped

unfoldable pub saturating_suc : (width : ℕ) → ℕ → ℕ
saturating_suc width n = min (n + 1) (2 ^ width - 1)

unfoldable pub connect : Supervisor → Supervisor
connect s =
    let generation = saturating_suc 64 s.generation in
    send (record s { phase = running; generation = generation }) (connecting generation s.attempt)

unfoldable pub start_round : RetryPolicy → Supervisor → Supervisor
start_round retry s =
    let counted = record s { attempt = saturating_suc 32 s.attempt } in
    if s.cancel
    then finish s
    else if permits retry counted.attempt
    then connect counted
    else finish counted

unfoldable pub connection_ends : Supervisor → Option ℕ → Supervisor
connection_ends s reason =
    if s.cancel
    then finish s
    else send (record s { phase = delayed }) (disconnected s.generation reason)

-- `is_current` of a reporter with a generation.
unfoldable pub is_current : ConnectionState → ℕ → Bool
is_current idle g = false
is_current (connecting generation attempt) g = generation == g
is_current (connected generation) g = generation == g
is_current (disconnected generation reason) g = false
is_current stopped g = false

-- `connected` of a reporter: it looks at the state, and sends after that.
unfoldable pub look : Supervisor → ℕ → Supervisor
look s g =
    if is_current s.state g then record s { pending = update s.pending g (s.pending g + 1) } else s

unfoldable pub tell : Supervisor → ℕ → Supervisor
tell s g =
    if s.pending g == 0
    then s
    else send (record s { pending = update s.pending g (s.pending g - 1) }) (connected g)

-- A round of the task begins; the connection ends; the delay is over, or cut short by the
-- cancellation; a reporter looks at the state, or sends if it found itself current; the token is
-- cancelled; the last receiver is dropped.
pub data Event : Type 0 where
  begins : Event
  ends : (reason : Option ℕ) → Event
  slept : Event
  looks : (generation : ℕ) → Event
  tells : (generation : ℕ) → Event
  cancels : Event
  unwatched : Event

unfoldable pub leave_delay : Supervisor → Supervisor
leave_delay s = if s.cancel then finish s else record s { phase = starting }

-- What the task does next, by where it stands; what is not next does nothing.
unfoldable pub advance : RetryPolicy → Phase → Supervisor → Event → Supervisor
advance retry starting s begins = start_round retry s
advance retry running s (ends reason) = connection_ends s reason
advance retry delayed s slept = leave_delay s
advance retry p s (looks g) = look s g
advance retry p s (tells g) = tell s g
advance retry p s cancels = record s { cancel = true }
advance retry p s unwatched = record s { watched = false }
advance retry running s begins = s
advance retry delayed s begins = s
advance retry ended s begins = s
advance retry starting s (ends reason) = s
advance retry delayed s (ends reason) = s
advance retry ended s (ends reason) = s
advance retry starting s slept = s
advance retry running s slept = s
advance retry ended s slept = s

unfoldable pub step : RetryPolicy → Supervisor → Event → Supervisor
step retry s event = advance retry s.phase s event

unfoldable pub run : RetryPolicy → Supervisor → List Event → Supervisor
run retry s [] = s
run retry s (event ∷ events) = run retry (step retry s event) events
