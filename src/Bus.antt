-- ===== src/Bus.antt =====
-- base/src/bus/mpsc.rs: a bus with one bounded channel for each type of message.
use pigs.Prelude.{
  ℕ, Bool, true, false, not, List, [], ◌∷◌, ◌++◌, leb, ◌==◌, if◌then◌else◌, length, update, Option,
  none, some,
}
pub mod Calls
pub mod Order
mod Tests

-- `MessageBusError`.
pub data MessageBusError : Type 0 where
  already_exists : MessageBusError
  not_found : MessageBusError
  full : MessageBusError
  channel_closed : MessageBusError
  empty : MessageBusError
  timeout : MessageBusError
  type_mismatch : MessageBusError
  lagged : MessageBusError

-- A `Box<dyn Any>`: the number of its type, and its value.
pub record Boxed : Type 0 where
  pub type_id : ℕ
  pub value : ℕ

-- The channel of a type. `receiving` says that its `TypedReceiver` is not dropped.
pub record Channel : Type 0 where
  pub queue : List Boxed
  pub receiving : Bool

-- The channels by type, and whether the bus itself is dropped, which has their only senders.
pub record TypedMessageBus : Type 0 where
  pub channels : ℕ → Option Channel
  pub dropped : Bool

abbrev pub default_channel_size : ℕ
default_channel_size = 64

-- What a call gives: nothing yet, a subscription, an accepted message, a received one, or an error.
pub data Given : Type 0 where
  waits : Given
  subscribed : Given
  accepted : (value : ℕ) → Given
  received : (value : ℕ) → Given
  error : MessageBusError → Given

unfoldable pub new : TypedMessageBus
new = record { channels = λ t. none; dropped = false }

-- The call's answer with the channel of its type afterwards.
unfoldable pub sub_type_channel : Option Channel → Given × Option Channel
sub_type_channel none = (subscribed, some (record { queue = []; receiving = true }))
sub_type_channel (some channel) = (error already_exists, some channel)

unfoldable pub push : Channel → Boxed → Channel
push channel message = record channel { queue = channel.queue ++ message ∷ [] }

-- `try_send`, with what is said of a full channel.
unfoldable pub send_or : Given → ℕ → ℕ → Channel → Given × Option Channel
send_or at_full t value channel =
    if not channel.receiving
    then (error channel_closed, some channel)
    else if leb default_channel_size (length channel.queue)
    then (at_full, some channel)
    else (accepted value, some (push channel (record { type_id = t; value = value })))

-- The look-up of the type's sender first.
unfoldable pub send_to : Given → ℕ → ℕ → Option Channel → Given × Option Channel
send_to at_full t value none = (error not_found, none)
send_to at_full t value (some channel) = send_or at_full t value channel

unfoldable pub try_publish : ℕ → ℕ → Option Channel → Given × Option Channel
try_publish t value channel = send_to (error full) t value channel

-- A turn of `publish`, which waits for room.
unfoldable pub publish : ℕ → ℕ → Option Channel → Given × Option Channel
publish t value channel = send_to waits t value channel

unfoldable pub try_cast : ℕ → Boxed → Given
try_cast t message = if message.type_id == t then received message.value else error type_mismatch

-- The receiving of the first message, with what is said of an empty channel.
unfoldable pub receive_or : Given → ℕ → Channel → List Boxed → Given × Channel
receive_or at_empty t channel [] = (at_empty, channel)
receive_or at_empty t channel (message ∷ queue) =
    (try_cast t message, record channel { queue = queue })

-- The receiver's calls, which are made as long as it is not dropped.
unfoldable pub on_receiver : Given → ℕ → Option Channel → Given × Option Channel
on_receiver at_empty t none = (waits, none)
on_receiver at_empty t (some channel) =
    let r = receive_or at_empty t channel channel.queue in
    if channel.receiving then (r.0, some r.1) else (waits, some channel)

unfoldable pub drop_receiver : Option Channel → Option Channel
drop_receiver none = none
drop_receiver (some channel) = some (record { queue = []; receiving = false })

-- A call, for a type.
pub data Call : Type 0 where
  subscribes : Call
  tries : (value : ℕ) → Call
  publishes : (value : ℕ) → Call
  tries_recv : Call
  receives : Call
  receives_by : (is_late : Bool) → Call
  drops : Call

unfoldable pub call : (dropped : Bool) → ℕ → Option Channel → Call → Given × Option Channel
call dropped t channel subscribes = sub_type_channel channel
call dropped t channel (tries value) = try_publish t value channel
call dropped t channel (publishes value) = publish t value channel
call dropped t channel tries_recv =
    on_receiver (if dropped then error channel_closed else error empty) t channel
call dropped t channel receives =
    on_receiver (if dropped then error channel_closed else waits) t channel
call dropped t channel (receives_by is_late) =
    on_receiver (if dropped then error channel_closed else if is_late then error timeout else waits)
      t channel
call dropped t channel drops = (waits, drop_receiver channel)

-- A call at the bus; `none` drops the bus.
unfoldable pub bus_step : TypedMessageBus → Option (ℕ × Call) → Given × TypedMessageBus
bus_step b none = (waits, record b { dropped = true })
bus_step b (some (t, c)) =
    let r = call b.dropped t (b.channels t) c in
    (r.0, record b { channels = update b.channels t r.1 })
