-- ===== src/Supervisor/Tests.antt =====
-- base_rpc/src/stream_supervisor.rs: the supervisor on small inputs.
use pigs.Prelude.{true, none, some, List, [], ◌∷◌, ◌≡◌, refl}
use pigs.Supervisor.{
  connecting, connected, stopped, RetryPolicy, permits, ended, spawn, send, finish, saturating_suc,
  connect, start_round, connection_ends, is_current, look, tell, Event, begins, ends, slept, looks,
  tells, cancels, leave_delay, advance, step, run,
}
use pigs.Supervisor.Shown.{shown, run-shown}
use pigs.Supervisor.Ending.{awaited, cancels-ended}

program : Unit {0}
unfolding permits spawn send finish saturating_suc connect start_round connection_ends is_current
    look tell leave_delay advance step run shown
program = _

abbrev twice : RetryPolicy
twice = record { max_attempts = some 2 }

-- A connection that is lost, and the next one, which a stale report does not touch.
abbrev events : List Event
events =
    begins
    ∷ looks 1
    ∷ tells 1
    ∷ ends (some 9)
    ∷ looks 1
    ∷ tells 1
    ∷ slept
    ∷ begins
    ∷ looks 1
    ∷ tells 1
    ∷ []

reconnects : (run twice spawn events).state ≡ connecting 2 2
unfolding program
reconnects = refl

gives_up :
    (run twice spawn (begins ∷ ends none ∷ slept ∷ begins ∷ ends none ∷ slept ∷ begins ∷ [])).state
    ≡ stopped
unfolding program
gives_up = refl

-- A reporter finds itself current, the supervisor stops, and the reporter sends after that.
late_report :
    ((run twice spawn (begins ∷ looks 1 ∷ cancels ∷ ends none ∷ [])).state ≡ stopped)
    × ((run twice spawn (begins ∷ looks 1 ∷ cancels ∷ ends none ∷ tells 1 ∷ [])).state
        ≡ connected 1)
unfolding program
late_report = (refl, refl)

watched_there : (run twice spawn events).watched ≡ true
unfolding program
watched_there = refl

run-shown_example :
    shown
      (run twice spawn events).phase
      (run twice spawn events).generation
      (run twice spawn events).state
    ≡ true
run-shown_example =
    run-shown twice events (_, (_, (refl, (_, (_, (refl, (_, (_, (_, (refl, _))))))))))
      watched_there

cancels-ended_example :
    (run twice
      (run twice spawn events)
      (cancels ∷ awaited (run twice spawn events).phase none ∷ [])).phase
    ≡ ended
cancels-ended_example = cancels-ended twice (run twice spawn events) none
