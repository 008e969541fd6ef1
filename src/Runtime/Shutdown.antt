-- ===== src/Runtime/Shutdown.antt =====
-- base/src/utils/rt.rs: the shutdown of the application, runtime by runtime.
use pigs.Prelude.{
  ℕ, ◌+◌, ◌-◌, ◌/◌, ◌%◌, ◌^◌, Bool, true, false, not, ◌&&◌, ◌||◌, Option, none, some, List, [], ◌∷◌,
  ltb, ◌==◌, if◌then◌else◌, map, length, retain,
}
use pigs.Runtime.{TaskState, ShutdownOutcome, graceful, timed_out, incomplete}
use pigs.Runtime.Stages.{main, contains, stages}
use pigs.Runtime.Registry.{Happening, RuntimeRegistry, happen_all, remove, wait_tasks}
pub mod Stops
pub mod Reports
pub mod Budget
pub mod Outcome
mod Tests

-- What the shutdown of one runtime meets: what happens while it waits for the tasks and whether they
-- end in time, then while the runtime stops and whether the thread that stops it comes back, and the
-- time that all of it takes.
pub record Meeting : Type 0 where
  pub waiting : List Happening
  pub in_time : Bool
  pub stopping : List Happening
  pub joined : Bool
  pub elapsed : ℕ

pub record RuntimeShutdownReport : Type 0 where
  pub runtime_type : ℕ
  pub outcome : ShutdownOutcome
  pub elapsed : ℕ
  pub completed_tasks : ℕ
  pub cancelled_tasks : ℕ
  pub panicked_tasks : ℕ
  pub remaining_tasks : List ℕ

unfoldable pub none_remain : List ℕ → Bool
none_remain [] = true
none_remain (name ∷ names) = false

unfoldable pub stage_outcome : Meeting → List ℕ → ℕ → ShutdownOutcome
stage_outcome met remaining panicked =
    if not met.in_time
    then timed_out
    else if (not met.joined || not (none_remain remaining)) || ltb 0 panicked
    then incomplete
    else graceful

unfoldable pub main_outcome : Meeting → List ℕ → ℕ → ShutdownOutcome
main_outcome met remaining panicked =
    if not met.in_time
    then timed_out
    else if none_remain remaining && (panicked == 0)
    then graceful
    else incomplete

unfoldable pub is_graceful : ShutdownOutcome → Bool
is_graceful graceful = true
is_graceful timed_out = false
is_graceful incomplete = false

unfoldable pub is_timed_out : ShutdownOutcome → Bool
is_timed_out graceful = false
is_timed_out timed_out = true
is_timed_out incomplete = false

unfoldable pub remaining_tasks : ShutdownOutcome → List ℕ → List ℕ → List ℕ
remaining_tasks outcome before [] = retain (λ name. not (is_graceful outcome)) before
remaining_tasks outcome before (name ∷ names) = name ∷ names

unfoldable pub report_of :
    ℕ → ShutdownOutcome → Meeting → TaskState → List ℕ → RuntimeShutdownReport
report_of k outcome met tasks remaining = record {
  runtime_type = k;
  outcome = outcome;
  elapsed = met.elapsed;
  completed_tasks = tasks.completed;
  cancelled_tasks = tasks.cancelled;
  panicked_tasks = tasks.panicked;
  remaining_tasks = remaining;
}

-- The duration of one stage, of the time that is left for `left` stages.
unfoldable pub stage_timeout : ℕ → ℕ → ℕ → ℕ
stage_timeout deadline now left =
    if left % 2 ^ 32 == 0 then 0 else (deadline - now) / (left % 2 ^ 32)

unfoldable pub time_after : ℕ → Option RuntimeShutdownReport → ℕ
time_after now none = now
time_after now (some report) = now + report.elapsed

unfoldable pub push_report :
    Option RuntimeShutdownReport → List RuntimeShutdownReport → List RuntimeShutdownReport
push_report none reports = reports
push_report (some report) reports = report ∷ reports

-- `sort_names` is `sort` of the standard library on the tasks' names.
module _ (sort_names : List ℕ → List ℕ) where
  unfoldable pub active_names : TaskState → List ℕ
  active_names tasks = sort_names (map (λ entry. entry.1) tasks.active)

  -- What is reported of the runtime `k`, with the names that were active before it was stopped.
  unfoldable pub stage_report : ℕ → Meeting → (before : List ℕ) → TaskState → RuntimeShutdownReport
  stage_report k met before tasks =
      let remaining = active_names tasks in
      let outcome = stage_outcome met remaining tasks.panicked in
      report_of k outcome met tasks (remaining_tasks outcome before remaining)

  unfoldable pub main_report : Meeting → TaskState → RuntimeShutdownReport
  main_report met tasks =
      let remaining = active_names tasks in
      report_of main (main_outcome met remaining tasks.panicked) met tasks remaining

  -- The end of `shutdown_runtime`, from the removal of the entry.
  unfoldable pub stop_runtime :
      RuntimeRegistry → ℕ → Meeting → Option RuntimeShutdownReport × RuntimeRegistry
  stop_runtime r k met =
      let r1 = happen_all (remove r k) met.stopping in
      if contains r.runtimes k
      then (some (stage_report k met (active_names (r.entries k).tasks) (r1.entries k).tasks), r1)
      else (none, r)

-- `meets` is what the shutdown of a runtime with a timeout meets.
module _ (sort_names : List ℕ → List ℕ) (meets : ℕ → ℕ → Meeting) where
  unfoldable pub shutdown_runtime :
      RuntimeRegistry → ℕ → ℕ → Option RuntimeShutdownReport × RuntimeRegistry
  shutdown_runtime r k timeout =
      let met = meets k timeout in
      let stopped = stop_runtime sort_names (wait_tasks r k met.waiting) k met in
      if contains r.runtimes k then stopped else (none, r)

  unfoldable pub prepare_main_shutdown :
      RuntimeRegistry → ℕ → Option RuntimeShutdownReport × RuntimeRegistry
  prepare_main_shutdown r timeout =
      let met = meets main timeout in
      let r1 = wait_tasks r main met.waiting in
      if contains r.runtimes main
      then (some (main_report sort_names met (r1.entries main).tasks), r1)
      else (none, r)

  -- The loop over the stages, and what follows it.
  unfoldable pub shut_stages :
      RuntimeRegistry → (deadline now : ℕ) → List ℕ → List RuntimeShutdownReport × RuntimeRegistry
  shut_stages r deadline now [] =
      let s = prepare_main_shutdown r (deadline - now) in (push_report s.0 [], s.1)
  shut_stages r deadline now (k ∷ ordered) =
      let s = shutdown_runtime r k (stage_timeout deadline now (length (k ∷ ordered) + 1)) in
      let rest = shut_stages s.1 deadline (time_after now s.0) ordered in
      (push_report s.0 rest.0, rest.1)

  unfoldable pub shutdown :
      (List ℕ → List ℕ)
      → RuntimeRegistry
      → List ℕ
      → (total_timeout now : ℕ) → List RuntimeShutdownReport × RuntimeRegistry
  shutdown sort r orders total_timeout now =
      shut_stages (record r { shutting_down = true }) (now + total_timeout) now
        (stages sort orders r.runtimes)

unfoldable pub all_graceful : List RuntimeShutdownReport → Bool
all_graceful [] = true
all_graceful (report ∷ reports) = is_graceful report.outcome && all_graceful reports

unfoldable pub any_timed_out : List RuntimeShutdownReport → Bool
any_timed_out [] = false
any_timed_out (report ∷ reports) = is_timed_out report.outcome || any_timed_out reports

unfoldable pub total_outcome : Bool → List RuntimeShutdownReport → ShutdownOutcome
total_outcome failed reports =
    if failed
    then incomplete
    else if all_graceful reports
    then graceful
    else if any_timed_out reports
    then timed_out
    else incomplete

-- `take_main_runtime`.
unfoldable pub take_main_runtime : RuntimeRegistry → RuntimeRegistry
take_main_runtime r = remove r main

-- `order_shutdown` after the signal: `stopping` is what happens while the main runtime stops.
unfoldable pub order_shutdown :
    (sort_names sort : List ℕ → List ℕ)
    → (ℕ → ℕ → Meeting)
    → List Happening
    → RuntimeRegistry
    → List ℕ
    → (total_timeout now : ℕ) → ShutdownOutcome × List RuntimeShutdownReport × RuntimeRegistry
order_shutdown sort_names sort meets stopping r orders total_timeout now =
    let s = shutdown sort_names meets sort r orders total_timeout now in
    let r1 = happen_all (take_main_runtime s.1) stopping in (total_outcome r1.failed s.0, s.0, r1)
