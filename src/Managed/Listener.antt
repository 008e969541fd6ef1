-- ===== src/Managed/Listener.antt =====
-- base/src/net/rw.rs: the accept loop `run_tcp_listener`, and its backoff.
use pigs.Prelude.{ℕ, ◌+◌, ◌-◌, ◌*◌, min, Bool, true, false, List, [], ◌∷◌, ◌==◌, if◌then◌else◌}
use pigs.Managed.Report.{ManagedTaskReport, Joined, plus, record_connection_join, no_tasks}
pub mod Account
pub mod Backoff
mod Tests

-- Milliseconds.
abbrev pub accept_error_backoff_min : ℕ
accept_error_backoff_min = 10

abbrev pub accept_error_backoff_max : ℕ
accept_error_backoff_max = 1000

unfoldable pub next_accept_error_backoff : ℕ → ℕ
next_accept_error_backoff current =
    if current == 0 then accept_error_backoff_min else min (current * 2) accept_error_backoff_max

-- The loop, the `while` after it, or its end.
pub data Phase : Type 0 where
  accepting : Phase
  draining : Phase
  returned : Phase

-- `connections` is the number of tasks in the `JoinSet`.
pub record Listener : Type 0 where
  pub phase : Phase
  pub report : ManagedTaskReport
  pub connections : ℕ
  pub accept_error_backoff : ℕ
  pub cancel : Bool

-- What a `select!` of the loop may see: the token cancelled; a joined connection; an accepted one,
-- or an error of `accept`. `raced` says that the token is cancelled after the `select!` has looked at
-- it, and `interrupted` that it is before the backoff is over.
pub data Event : Type 0 where
  cancelled : Event
  joined : Joined → Event
  accepted : (raced : Bool) → Event
  accept_error : (interrupted : Bool) → Event

unfoldable pub new : Listener
new = record {
  phase = accepting;
  report = no_tasks;
  connections = 0;
  accept_error_backoff = 0;
  cancel = false;
}

-- The break out of the loop: the token is cancelled, and the `while` ends at once without tasks.
unfoldable pub leave : Listener → Listener
leave l = record l { phase = if l.connections == 0 then returned else draining; cancel = true }

unfoldable pub count_cancelled : Listener → Listener
count_cancelled l = record l {
  report = record (l.report) { cancelled = plus l.report.cancelled 1 };
}

unfoldable pub join_one : Listener → Joined → Listener
join_one l result = record l {
  report = record_connection_join l.report result;
  connections = l.connections - 1;
}

-- One round of the loop.
unfoldable pub accept_round : Listener → Event → Listener
accept_round l cancelled = leave (count_cancelled (record l { cancel = true }))
accept_round l (joined result) = if l.connections == 0 then l else join_one l result
accept_round l (accepted raced) =
    if raced
    then leave l
    else record l { accept_error_backoff = 0; connections = l.connections + 1 }
accept_round l (accept_error interrupted) =
    let waiting = record l {
      accept_error_backoff = next_accept_error_backoff l.accept_error_backoff;
    } in
    if interrupted then leave (count_cancelled (record waiting { cancel = true })) else waiting

-- One round of the `while`.
unfoldable pub drain_round : Listener → Event → Listener
drain_round l (joined result) =
    let next = join_one l result in
    record next { phase = if next.connections == 0 then returned else draining }
drain_round l cancelled = l
drain_round l (accepted raced) = l
drain_round l (accept_error interrupted) = l

unfoldable pub round_in : Phase → Listener → Event → Listener
round_in accepting l event = accept_round l event
round_in draining l event = drain_round l event
round_in returned l event = l

unfoldable pub round : Listener → Event → Listener
round l event = round_in l.phase l event

unfoldable pub run_tcp_listener : Listener → List Event → Listener
run_tcp_listener l [] = l
run_tcp_listener l (event ∷ events) = run_tcp_listener (round l event) events
