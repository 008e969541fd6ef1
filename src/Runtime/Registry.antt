-- ===== src/Runtime/Registry.antt =====
-- base/src/utils/rt.rs: the registry of runtimes and what the program does with it.
use pigs.Prelude.{
  ℕ, ◌+◌, Bool, true, false, not, Option, none, some, List, [], ◌∷◌, ◌++◌, ◌==◌, if◌then◌else◌,
  update, retain,
}
use pigs.Runtime.{TaskState, TaskGuard, GlobalRuntime, spawn, Ending, finish, begin_shutdown}
use pigs.Runtime.Stages.{main, contains}
pub mod Keeps

pub record RuntimeEntry : Type 0 where
  pub tasks : TaskState
  pub cancel : Bool

unfoldable pub new_entry : RuntimeEntry
new_entry = record { tasks = pigs.Runtime.new; cancel = false }

-- `entries` also has those that were removed, as the tasks keep them.
pub record RuntimeRegistry : Type 0 where
  pub runtimes : List ℕ
  pub entries : ℕ → RuntimeEntry
  pub shutting_down : Bool
  pub failed : Bool
  pub shutdown_requested : Bool

unfoldable pub new : RuntimeRegistry
new = record {
  runtimes = main ∷ [];
  entries = λ k. new_entry;
  shutting_down = false;
  failed = false;
  shutdown_requested = false;
}

-- `RuntimeEntry::handle`: it shares the registry's flags.
unfoldable pub handle : RuntimeRegistry → ℕ → GlobalRuntime
handle r k = record {
  tasks = (r.entries k).tasks;
  cancel = (r.entries k).cancel;
  failed = r.failed;
  shutdown_requested = r.shutdown_requested;
}

-- The registry after an operation on the handle.
unfoldable pub with_handle : RuntimeRegistry → ℕ → GlobalRuntime → RuntimeRegistry
with_handle r k rt = record r {
  entries = update r.entries k (record { tasks = rt.tasks; cancel = rt.cancel });
  failed = rt.failed;
  shutdown_requested = rt.shutdown_requested;
}

unfoldable pub get : RuntimeRegistry → ℕ → Option GlobalRuntime
get r k = if contains r.runtimes k then some (handle r k) else none

unfoldable pub add_entry : RuntimeRegistry → ℕ → RuntimeRegistry
add_entry r k = record r { runtimes = r.runtimes ++ k ∷ []; entries = update r.entries k new_entry }

unfoldable pub register : RuntimeRegistry → ℕ → Option GlobalRuntime × RuntimeRegistry
register r k =
    if r.shutting_down
    then (none, r)
    else if contains r.runtimes k
    then (none, r)
    else (some (handle (add_entry r k) k), add_entry r k)

unfoldable pub fail : RuntimeRegistry → RuntimeRegistry
fail r = record r { failed = true; shutdown_requested = true }

unfoldable pub remove : RuntimeRegistry → ℕ → RuntimeRegistry
remove r k = record r { runtimes = retain (λ x. not (x == k)) r.runtimes }

-- What the rest of the program does while the shutdown waits.
pub data Happening : Type 0 where
  registers : (k : ℕ) → Happening
  spawns : (k name : ℕ) → Happening
  ends : (k : ℕ) → TaskGuard → Ending → Happening
  fails : Happening

unfoldable pub happen : RuntimeRegistry → Happening → RuntimeRegistry
happen r (registers k) = (register r k).1
happen r (spawns k name) = with_handle r k (spawn (handle r k) name).1
happen r (ends k guard ending) = with_handle r k (finish (handle r k) guard ending)
happen r fails = fail r

unfoldable pub happen_all : RuntimeRegistry → List Happening → RuntimeRegistry
happen_all r [] = r
happen_all r (h ∷ hs) = happen_all (happen r h) hs

-- The start of a runtime's shutdown, up to the end of the wait for its tasks.
unfoldable pub wait_tasks : RuntimeRegistry → ℕ → List Happening → RuntimeRegistry
wait_tasks r k waiting = happen_all (with_handle r k (begin_shutdown (handle r k))) waiting
