-- ===== src/Bus/Tests.antt =====
-- base/src/bus/mpsc.rs: a bus on small inputs.
use pigs.Prelude.{ℕ, true, List, [], ◌∷◌, Option, none, some, ◌≡◌, refl}
use pigs.Bus.{
  already_exists, not_found, channel_closed, empty, timeout, TypedMessageBus, error, received, new,
  sub_type_channel, push, send_or, send_to, try_publish, publish, try_cast, receive_or, on_receiver,
  drop_receiver, Call, subscribes, tries, publishes, tries_recv, receives, receives_by, drops, call,
  bus_step,
}
use pigs.Bus.Order.{run, IsQueue, run-IsQueue}

program : Unit {0}
unfolding new sub_type_channel push send_or send_to try_publish publish try_cast receive_or
    on_receiver drop_receiver call bus_step run
program = _

-- Two types, and a receiver that is dropped with a message in its channel.
abbrev events : List (Option (ℕ × Call))
events =
    some (1, tries 4)
    ∷ some (1, subscribes)
    ∷ some (2, subscribes)
    ∷ some (1, tries 5)
    ∷ some (2, publishes 6)
    ∷ some (1, publishes 7)
    ∷ some (1, tries_recv)
    ∷ some (2, receives)
    ∷ []

abbrev busy : TypedMessageBus
busy = (run 1 new events).3

counted : (run 1 new events).0 ≡ 5 ∷ 7 ∷ []
unfolding program
counted = refl

-- A dropped receiver leaves a channel that takes nothing and that no one can subscribe again.
abbrev left : TypedMessageBus
left = (bus_step busy (some (1, drops))).1

answers :
    ((bus_step new (some (1, tries 4))).0 ≡ error not_found)
    × ((bus_step busy (some (1, receives))).0 ≡ received 7)
    × ((bus_step busy (some (2, tries_recv))).0 ≡ error empty)
    × ((bus_step busy (some (2, receives_by true))).0 ≡ error timeout)
    × ((bus_step (bus_step busy none).1 (some (2, receives))).0 ≡ error channel_closed)
    × ((bus_step left (some (1, publishes 8))).0 ≡ error channel_closed)
    × ((bus_step left (some (1, subscribes))).0 ≡ error already_exists)
unfolding program
answers = (refl, refl, refl, refl, refl, refl, refl)

run-IsQueue_example : IsQueue 1 (run 1 new events)
run-IsQueue_example = run-IsQueue 1 events
