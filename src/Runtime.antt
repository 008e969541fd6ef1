-- ===== src/Runtime.antt =====
-- base/src/utils/rt.rs: the tasks of one managed runtime and the outcome of its shutdown.
use pigs.Prelude.{
  ℕ, ◌+◌, ◌%◌, ◌^◌, Bool, true, false, not, ◌&&◌, ◌||◌, Option, none, some, List, [], ◌∷◌, ltb, leb,
  if◌then◌else◌, put, erase, map, lookup, length, update, retain, ◌==◌,
}
pub mod Tasks
pub mod Stages
pub mod Registry
pub mod Shutdown
mod Tests

-- Names of tasks are numbers; the counters are atomic and wrap.
pub record TaskState : Type 0 where
  pub accepting : Bool
  pub next_id : ℕ
  pub active : List (ℕ × ℕ)
  pub completed : ℕ
  pub cancelled : ℕ
  pub panicked : ℕ

pub record TaskGuard : Type 0 where
  pub id : ℕ
  pub finished : Bool

unfoldable pub fetch_suc : ℕ → ℕ
fetch_suc n = (n + 1) % 2 ^ 64

unfoldable pub new : TaskState
new = record {
  accepting = true;
  next_id = 0;
  active = [];
  completed = 0;
  cancelled = 0;
  panicked = 0;
}

unfoldable pub start_locked : TaskState → ℕ → TaskGuard × TaskState
start_locked s name = (
  record { id = s.next_id; finished = false },
  record s { next_id = fetch_suc s.next_id; active = put s.active s.next_id name },
)

unfoldable pub close : TaskState → TaskState
close s = record s { accepting = false }

unfoldable pub complete : TaskGuard → TaskState → Bool → TaskGuard × TaskState
complete guard s was_cancelled = (
  record guard { finished = true },
  record (if was_cancelled
      then record s { cancelled = fetch_suc s.cancelled }
      else record s { completed = fetch_suc s.completed }) { active = erase s.active guard.id },
)

unfoldable pub panic : TaskGuard → TaskState → TaskGuard × TaskState
panic guard s = (
  record guard { finished = true },
  record s { panicked = fetch_suc s.panicked; active = erase s.active guard.id },
)

-- The guard's `drop`.
unfoldable pub drop_guard : TaskGuard → TaskState → TaskState
drop_guard guard s =
    if guard.finished
    then s
    else record s { cancelled = fetch_suc s.cancelled; active = erase s.active guard.id }

-- A runtime's handle: its tasks, its token and the flags that it shares with the registry.
pub record GlobalRuntime : Type 0 where
  pub tasks : TaskState
  pub cancel : Bool
  pub failed : Bool
  pub shutdown_requested : Bool

-- `none` is the error of a runtime that no longer accepts tasks.
unfoldable pub spawn : GlobalRuntime → ℕ → Option TaskGuard × GlobalRuntime
spawn rt name =
    if rt.tasks.accepting
    then (some (start_locked rt.tasks name).0, record rt { tasks = (start_locked rt.tasks name).1 })
    else (none, rt)

-- How the spawned future or closure ends; a future may also be dropped before its end.
pub data Ending : Type 0 where
  output : Ending
  payload : Ending
  dropped : Ending

unfoldable pub finish : GlobalRuntime → TaskGuard → Ending → GlobalRuntime
finish rt guard output =
    let r = complete guard rt.tasks rt.cancel in record rt { tasks = drop_guard r.0 r.1 }
finish rt guard payload =
    let r = panic guard rt.tasks in
    record rt { tasks = drop_guard r.0 r.1; failed = true; shutdown_requested = true }
finish rt guard dropped = record rt { tasks = drop_guard guard rt.tasks }

pub data ShutdownOutcome : Type 0 where
  graceful : ShutdownOutcome
  timed_out : ShutdownOutcome
  incomplete : ShutdownOutcome

-- The start of `shutdown_runtime` and of `prepare_main_shutdown`, before the wait.
unfoldable pub begin_shutdown : GlobalRuntime → GlobalRuntime
begin_shutdown rt = record rt { tasks = close rt.tasks; cancel = true }
