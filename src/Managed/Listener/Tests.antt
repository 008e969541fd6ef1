-- ===== src/Managed/Listener/Tests.antt =====
-- base/src/net/rw.rs: the accept loop on small inputs.
use pigs.Prelude.{◌^◌, ◌<◌, List, [], ◌∷◌, true, false, ◌≡◌, refl, arith}
use pigs.Managed.Report.{join_error, is_panic, no_tasks, record_connection_join}
use pigs.Managed.Listener.{
  Phase, accepting, draining, Listener, Event, joined, accepted, accept_error, new, leave,
  count_cancelled, join_one, accept_round, drain_round, round_in, round, run_tcp_listener,
  next_accept_error_backoff, accept_error_backoff_min, accept_error_backoff_max,
}
use pigs.Managed.Listener
use pigs.Managed.Listener.Account.{IsAccounted, accepted_in, run_tcp_listener-IsAccounted}
use pigs.Managed.Listener.Backoff.{after_errors, after_errors-min}

program : Unit {0}
unfolding no_tasks record_connection_join new leave count_cancelled join_one accept_round
    drain_round round_in round run_tcp_listener next_accept_error_backoff
program = _

-- Two errors, two connections, one of which panics, and the cancellation.
abbrev events : List Event
events =
    accept_error false
    ∷ accept_error false
    ∷ accepted false
    ∷ accepted false
    ∷ joined (join_error is_panic)
    ∷ Listener.cancelled
    ∷ []

abbrev stopped : Listener
stopped = record {
  phase = draining;
  report = record { completed = 0; cancelled = 1; failed = 0; panicked = 1; remaining = 0 };
  connections = 1;
  accept_error_backoff = 0;
  cancel = true;
}

stops : run_tcp_listener new events ≡ stopped
unfolding program
stops = refl

waits :
    (run_tcp_listener new (accept_error false ∷ accept_error false ∷ [])).accept_error_backoff ≡ 20
unfolding program
waits = refl

stopped-IsAccounted : IsAccounted 2 stopped
stopped-IsAccounted = record {
  conserved = refl;
  ended = λ e. absurd (ground (arith, e));
  waits = λ e. refl;
  broken = λ e. refl;
}

few : accepted_in new events < 2 ^ 64
unfolding program accepted_in
few = omega arith

run_tcp_listener-IsAccounted_example :
    IsAccounted (accepted_in new events) (run_tcp_listener new events)
run_tcp_listener-IsAccounted_example = run_tcp_listener-IsAccounted events few

after_errors-min_example : after_errors 8 0 ≡ 1000
after_errors-min_example = after_errors-min 7
