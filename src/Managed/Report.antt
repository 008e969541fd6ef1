-- ===== src/Managed/Report.antt =====
-- base/src/net/rw.rs: the reports of stopped tasks.
use pigs.Prelude.{ℕ, ◌+◌, ◌%◌, ◌^◌, Bool, ◌&&◌, ◌==◌, if◌then◌else◌}

pub record NetworkCloseReport : Type 0 where
  pub completed : ℕ
  pub cancelled : ℕ
  pub failed : ℕ
  pub panicked : ℕ
  pub remaining : ℕ

pub record ManagedTaskReport : Type 0 where
  pub completed : ℕ
  pub cancelled : ℕ
  pub failed : ℕ
  pub panicked : ℕ
  pub remaining : ℕ

-- The counts of a report, and each of them.
pub data Field : Type 0 where
  the_completed : Field
  the_cancelled : Field
  the_failed : Field
  the_panicked : Field
  the_remaining : Field

abbrev pub told : Field → NetworkCloseReport → ℕ
told the_completed r = r.completed
told the_cancelled r = r.cancelled
told the_failed r = r.failed
told the_panicked r = r.panicked
told the_remaining r = r.remaining

abbrev pub told_by_tasks : Field → ManagedTaskReport → ℕ
told_by_tasks the_completed r = r.completed
told_by_tasks the_cancelled r = r.cancelled
told_by_tasks the_failed r = r.failed
told_by_tasks the_panicked r = r.panicked
told_by_tasks the_remaining r = r.remaining

-- The sums are of `usize` and wrap.
abbrev pub plus : ℕ → ℕ → ℕ
plus a b = (a + b) % 2 ^ 64

unfoldable pub no_report : NetworkCloseReport
no_report = record { completed = 0; cancelled = 0; failed = 0; panicked = 0; remaining = 0 }

unfoldable pub no_tasks : ManagedTaskReport
no_tasks = record { completed = 0; cancelled = 0; failed = 0; panicked = 0; remaining = 0 }

unfoldable pub is_complete : NetworkCloseReport → Bool
is_complete r = (r.failed == 0) && (r.panicked == 0) && (r.remaining == 0)

unfoldable pub merge : NetworkCloseReport → ManagedTaskReport → NetworkCloseReport
merge r other = record {
  completed = plus r.completed other.completed;
  cancelled = plus r.cancelled other.cancelled;
  failed = plus r.failed other.failed;
  panicked = plus r.panicked other.panicked;
  remaining = plus r.remaining other.remaining;
}

unfoldable pub merge_network : NetworkCloseReport → NetworkCloseReport → NetworkCloseReport
merge_network r other = record {
  completed = plus r.completed other.completed;
  cancelled = plus r.cancelled other.cancelled;
  failed = plus r.failed other.failed;
  panicked = plus r.panicked other.panicked;
  remaining = plus r.remaining other.remaining;
}

unfoldable pub merge_tasks : ManagedTaskReport → ManagedTaskReport → ManagedTaskReport
merge_tasks r other = record {
  completed = plus r.completed other.completed;
  cancelled = plus r.cancelled other.cancelled;
  failed = plus r.failed other.failed;
  panicked = plus r.panicked other.panicked;
  remaining = plus r.remaining other.remaining;
}

-- Why a join gives no result.
pub data JoinError : Type 0 where
  is_panic : JoinError
  is_cancelled : JoinError
  other_error : JoinError

-- What the join of a task that returns a `GlobalResult` gives.
pub data Joined : Type 0 where
  returned : Joined
  returned_error : Joined
  join_error : JoinError → Joined

unfoldable pub record_join_error : NetworkCloseReport → JoinError → NetworkCloseReport
record_join_error r is_panic = record r { panicked = plus r.panicked 1 }
record_join_error r is_cancelled = record r {
  cancelled = plus r.cancelled 1;
  remaining = plus r.remaining 1;
}
record_join_error r other_error = record r { failed = plus r.failed 1 }

unfoldable pub record_connection_join : ManagedTaskReport → Joined → ManagedTaskReport
record_connection_join r returned = record r { completed = plus r.completed 1 }
record_connection_join r returned_error = record r { failed = plus r.failed 1 }
record_connection_join r (join_error is_panic) = record r { panicked = plus r.panicked 1 }
record_connection_join r (join_error is_cancelled) = record r {
  cancelled = plus r.cancelled 1;
  remaining = plus r.remaining 1;
}
record_connection_join r (join_error other_error) = record r { failed = plus r.failed 1 }

-- What a join without a result adds to each count: a cancelled task is cancelled and remaining.
abbrev pub error_due : Field → JoinError → ℕ
error_due the_panicked is_panic = 1
error_due the_cancelled is_cancelled = 1
error_due the_remaining is_cancelled = 1
error_due the_failed other_error = 1
error_due other error = 0

-- What the join of one of the endpoint's protocol tasks gives.
pub data ProtocolJoined : Type 0 where
  report_of : ManagedTaskReport → ProtocolJoined
  no_report_of : JoinError → ProtocolJoined

unfoldable pub record_protocol_join : ManagedTaskReport → ProtocolJoined → ManagedTaskReport
record_protocol_join r (report_of task_report) = merge_tasks r task_report
record_protocol_join r (no_report_of is_panic) = record r { panicked = plus r.panicked 1 }
record_protocol_join r (no_report_of is_cancelled) = record r {
  cancelled = plus r.cancelled 1;
  remaining = plus r.remaining 1;
}
record_protocol_join r (no_report_of other_error) = record r { failed = plus r.failed 1 }

-- `close_report_result`: the report, or the error of an incomplete one, and whether it is logged.
pub data CloseResult : Type 0 where
  closed_with : NetworkCloseReport → CloseResult
  incomplete : (logged : Bool) → NetworkCloseReport → CloseResult

unfoldable pub close_report_result : NetworkCloseReport → Bool → CloseResult
close_report_result r log_failure =
    if is_complete r then closed_with r else incomplete log_failure r
