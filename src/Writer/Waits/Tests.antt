-- ===== src/Writer/Waits/Tests.antt =====
-- base/src/net/rw.rs: `wait_tcp_sink` on small inputs.
use pigs.Prelude.{false, none, List, [], ◌∷◌, ◌≡◌, refl}
use pigs.Writer.{queued}
use pigs.Writer.Waits.{
  Peer, zero_timeout, timed_out, returns_sink, returns_error, found_or, wait_step, wait_tcp_sink,
  Happens, waiter, registers, notifies, removes, passes, notify_waiters, peer_step, peer_steps,
}
use pigs.Writer.Waits.Wakeups.{three_steps, wait_tcp_sink-returns}

program : Unit {0}
unfolding found_or wait_step wait_tcp_sink notify_waiters peer_step peer_steps
program = _

abbrev absent : Peer
absent = record { sink = none; notified = 0; to_notify = 0; closed = false; late = false }

-- The writer is registered just before the task listens, and the deadline passes.
abbrev meets : List Happens
meets =
    waiter
    ∷ waiter
    ∷ registers (queued 11 1)
    ∷ notifies
    ∷ waiter
    ∷ removes
    ∷ waiter
    ∷ registers (queued 11 2)
    ∷ passes
    ∷ notifies
    ∷ []

gives_up :
    (peer_steps
      (absent, wait_tcp_sink 5)
      (waiter ∷ waiter ∷ waiter ∷ waiter ∷ passes ∷ waiter ∷ [])).1
    ≡ returns_error timed_out
unfolding program
gives_up = refl

no_time : wait_tcp_sink 0 ≡ returns_error zero_timeout
unfolding program
no_time = refl

wait_tcp_sink-returns_example :
    let s = peer_steps (absent, wait_tcp_sink 5) meets in
    three_steps s ≡ (s.0, returns_sink (queued 11 2))
unfolding program
wait_tcp_sink-returns_example = wait_tcp_sink-returns absent 5 meets (queued 11 2) _ refl refl refl
