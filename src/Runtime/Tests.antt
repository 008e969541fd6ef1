-- ===== src/Runtime/Tests.antt =====
-- base/src/utils/rt.rs: the tasks of a runtime on small inputs.
use pigs.Prelude.{List, [], ◌∷◌, ℕ, false, ◌≡◌, refl, length, arith}
use pigs.Runtime.{
  TaskGuard, fetch_suc, new, start_locked, close, complete, panic, drop_guard, GlobalRuntime, spawn,
  output, payload, dropped, finish, begin_shutdown,
}
use pigs.Runtime.Tasks.{
  IsAccounted, new-IsAccounted, IsShut, spawns, refuses, Steps, done, more, Steps-IsAccounted,
}
use pigs.Runtime.Stages.{contains, push_new, push_orders, push_remaining, runtime_types, stages}

program : Unit {0}
unfolding fetch_suc new start_locked close complete panic drop_guard spawn finish begin_shutdown
program = _

abbrev fresh : GlobalRuntime
fresh = record { tasks = new; cancel = false; failed = false; shutdown_requested = false }

abbrev two : GlobalRuntime
two = (spawn (spawn fresh 7).1 8).1

abbrev guard : ℕ → TaskGuard
guard id = record { id = id; finished = false }

panics : (finish two (guard 0) payload).tasks.panicked ≡ 1
unfolding program
panics = refl

counts_cancelled : (finish (begin_shutdown two) (guard 0) output).tasks.cancelled ≡ 1
unfolding program
counts_cancelled = refl

one_active : length (finish two (guard 1) dropped).tasks.active ≡ 1
unfolding program
one_active = refl

two_run : Steps 0 fresh 2 two
unfolding program
two_run =
    more 0 fresh 1 (spawn fresh 7).1 2 two (spawns 0 7 fresh refl)
      (more 1 (spawn fresh 7).1 2 two 2 two (spawns 1 8 (spawn fresh 7).1 refl) (done 2 two))

Steps-IsAccounted_example : IsAccounted 2 two.tasks
Steps-IsAccounted_example = Steps-IsAccounted 0 2 fresh two two_run (omega arith) new-IsAccounted

shut : IsShut (begin_shutdown two)
unfolding program
shut = record { refusing = refl; cancelled = refl }

late_run : Steps 2 (begin_shutdown two) 2 (spawn (begin_shutdown two) 9).1
unfolding program
late_run =
    more 2 (begin_shutdown two) 2 (spawn (begin_shutdown two) 9).1 2
      (spawn (begin_shutdown two) 9).1 (refuses 2 9 (begin_shutdown two) refl)
      (done 2 (spawn (begin_shutdown two) 9).1)

-- The registry has 0, 3, 4 and 5; the caller orders 5, 0, 5 and 3.
abbrev in_place : List ℕ → List ℕ
in_place xs = xs

appended_last : stages in_place (5 ∷ 0 ∷ 5 ∷ 3 ∷ []) (0 ∷ 3 ∷ 4 ∷ 5 ∷ []) ≡ 5 ∷ 3 ∷ 4 ∷ []
unfolding contains push_new push_orders push_remaining runtime_types stages
appended_last = refl
