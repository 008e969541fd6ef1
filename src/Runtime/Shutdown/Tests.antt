-- ===== src/Runtime/Shutdown/Tests.antt =====
-- base/src/utils/rt.rs: the registry of runtimes on small inputs.
use pigs.Prelude.{ℕ, map, true, false, none, [], ◌∷◌, ◌≡◌, refl, arith}
use pigs.Runtime.{
  fetch_suc, start_locked, close, complete, panic, drop_guard, spawn, Ending, output, payload,
  finish, ShutdownOutcome, graceful, timed_out, incomplete, begin_shutdown,
}
use pigs.Runtime.Stages.{contains, push_new, push_orders, push_remaining, runtime_types, stages}
use pigs.Runtime.Registry.{
  new_entry, new, handle, with_handle, get, add_entry, register, fail, remove, registers, spawns,
  ends, happen, happen_all, wait_tasks, RuntimeRegistry,
}
use pigs.Runtime.Shutdown.{
  Meeting, none_remain, stage_outcome, main_outcome, is_graceful, is_timed_out, remaining_tasks,
  report_of, stage_timeout, time_after, push_report, active_names, stage_report, main_report,
  stop_runtime, shutdown_runtime, prepare_main_shutdown, shut_stages, shutdown, all_graceful,
  any_timed_out, total_outcome, take_main_runtime, order_shutdown, RuntimeShutdownReport,
}
use pigs.Runtime.Shutdown.Reports.{IsDown, shutdown-IsDown}
use pigs.Runtime.Shutdown.Budget.{IsTimely, shutdown-IsTimely}
use pigs.Runtime.Shutdown.Outcome.{EndsWell, order_shutdown-EndsWell}

program : Unit {0}
unfolding fetch_suc start_locked close complete panic drop_guard spawn finish begin_shutdown
    contains push_new push_orders push_remaining runtime_types stages new_entry pigs.Runtime.new new
    handle with_handle get add_entry register fail remove happen happen_all none_remain
    stage_outcome main_outcome is_graceful is_timed_out remaining_tasks report_of stage_timeout
    time_after push_report wait_tasks active_names stage_report main_report stop_runtime
    shutdown_runtime prepare_main_shutdown shut_stages shutdown all_graceful any_timed_out
    total_outcome take_main_runtime order_shutdown
program = _

-- The runtimes 3 and 5 with a task each.
abbrev two_runtimes : RuntimeRegistry
two_runtimes = happen_all new (registers 3 ∷ registers 5 ∷ spawns 3 70 ∷ spawns 5 80 ∷ [])

again : ((register two_runtimes 3).0 ≡ none) × (two_runtimes.runtimes ≡ 0 ∷ 3 ∷ 5 ∷ [])
unfolding program
again = (refl, refl)

-- The task of a runtime ends while the shutdown waits for it, and a new one is refused.
abbrev quiet : ℕ → ℕ → Meeting
quiet k timeout = record {
  waiting = ends k (record { id = 0; finished = false }) output ∷ spawns k 90 ∷ registers 9 ∷ [];
  in_time = true;
  stopping = [];
  joined = true;
  elapsed = 0;
}

-- A task panics while the main runtime stops.
broken :
    (order_shutdown
      (λ xs. xs)
      (λ xs. xs)
      quiet
      (ends 0 (record { id = 1; finished = false }) payload ∷ [])
      two_runtimes
      (5 ∷ 4 ∷ 0 ∷ [])
      60
      7).0
    ≡ incomplete
unfolding program
broken = refl

-- The task of 5 goes on: its stage has a third of the time, and the outcome says that it timed out.
abbrev stuck : ℕ → ℕ → Meeting
stuck k timeout = record {
  waiting = [];
  in_time = false;
  stopping = [];
  joined = true;
  elapsed = timeout;
}

late :
    let s = shutdown (λ xs. xs) stuck (λ xs. xs) two_runtimes (5 ∷ []) 60 7 in
    map (λ (report : RuntimeShutdownReport). report.elapsed) s.0 ≡ 20 ∷ 20 ∷ 20 ∷ []
unfolding program
late = refl

shutdown-IsDown_example :
    IsDown two_runtimes
      (stages (λ xs. xs) (5 ∷ []) two_runtimes.runtimes)
      (shutdown (λ xs. xs) stuck (λ xs. xs) two_runtimes (5 ∷ []) 60 7)
shutdown-IsDown_example =
    shutdown-IsDown (λ xs. xs) (λ xs. xs) stuck (λ k xs. refl) two_runtimes (5 ∷ []) 60 7

shutdown-IsTimely_example :
    IsTimely 60 (shutdown (λ xs. xs) quiet (λ xs. xs) two_runtimes (5 ∷ []) 60 7).0
unfolding program
shutdown-IsTimely_example =
    shutdown-IsTimely (λ xs. xs) (λ xs. xs) quiet two_runtimes (5 ∷ []) 60 7 (omega arith)
      (λ k timeout. omega arith) (λ k timeout h. refl)

order_shutdown-EndsWell_example :
    EndsWell two_runtimes
      (stages (λ xs. xs) (5 ∷ 4 ∷ []) two_runtimes.runtimes)
      (order_shutdown (λ xs. xs) (λ xs. xs) quiet [] two_runtimes (5 ∷ 4 ∷ []) 60 7)
unfolding program
order_shutdown-EndsWell_example =
    order_shutdown-EndsWell (λ xs. xs) (λ xs. xs) quiet (λ k xs. refl) [] two_runtimes (5 ∷ 4 ∷ [])
      60 7 refl
