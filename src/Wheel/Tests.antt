-- ===== src/Wheel/Tests.antt =====
-- Runs of a shard on concrete inputs, and the theorems at such inputs.
use pigs.Prelude.{
  ℕ, ◌%◌, ◌-◌, ◌++◌, true, Option, none, some, List, [], ◌∷◌, map, ◌≡◌, refl, ℕ_discrete, Returns,
  arith,
}
use mathlib.Core.Option
use pigs.Wheel.State.{CacheEvent, insert, refresh, delete, Shard}
use pigs.Wheel.Table.{
  new_empty, write, move_last, swap_remove, new_table, alloc, free, insert_index, remove_index,
  take_expired, find_in, find_entry,
}
use pigs.Wheel.Ops.{
  new, place, schedule, reschedule, cascade_l2, cascade_l3, cascade, retain_live, compact,
}
use pigs.Wheel.Run.{
  Env, Pass, flush, expire, process_one, process_bucket, advance, catch_up, flush_rest, on_tick,
  target, delete_key, take_slot, insert_key, refresh_key, handle, handle_all, run,
}
use pigs.Wheel.Run.Tick.{IsReady, Ticked}
use pigs.Wheel.Run.Keys.{Put, Renewed, insert-Put, refresh-Renewed}
use pigs.Wheel.Run.Task.{new-IsReady, handle-IsReady, on_tick-Ticked, run-new-IsReady}

program : Unit {0}
unfolding ℕ_discrete new_empty write move_last swap_remove new_table alloc free insert_index
    remove_index take_expired find_in find_entry new place schedule reschedule cascade_l2 cascade_l3
    cascade retain_live compact flush expire process_one process_bucket advance catch_up flush_rest
    on_tick delete_key take_slot insert_key refresh_key handle handle_all run
program = tt

-- Keys are numbers whose hashes collide; the channel keeps up to four batches.
abbrev env : Env ℕ (List (List (CacheEvent ℕ)))
env = record {
  key_eq = ℕ_discrete;
  hash = λ k. k % 3;
  try_send = λ c batch. some (c ++ batch ∷ []);
}

abbrev keys_of : Option (Shard ℕ (List (List (CacheEvent ℕ)))) → List (List ℕ)
keys_of none = []
keys_of (some s) = map (map (λ e. e.key)) s.event_tx

abbrev passes : List (Pass ℕ)
passes =
    record {
      commands = insert 1 3 ∷ insert 4 1 ∷ insert 7 600 ∷ [];
      connected = true;
      elapsed = 400;
    }
    ∷ record { commands = refresh 1 ∷ delete 7 ∷ []; connected = true; elapsed = 800 }
    ∷ record { commands = insert 9 2 ∷ []; connected = true; elapsed = 2000 }
    ∷ []

run_test : keys_of (run env passes (new 8 [])) ≡ (4 ∷ []) ∷ (1 ∷ 9 ∷ []) ∷ []
unfolding program
run_test = refl

run_far :
    keys_of (
      run env
        (record { commands = insert 7 600 ∷ []; connected = true; elapsed = 119800 }
          ∷ record { commands = []; connected = true; elapsed = 120000 }
          ∷ [])
        (new 8 []))
    ≡ (7 ∷ []) ∷ []
unfolding program
run_far = refl

abbrev start : Shard ℕ (List (List (CacheEvent ℕ)))
start = new 4 []

start-IsReady : IsReady env.hash start
start-IsReady = new-IsReady env 4 [] (omega arith)

-- A shard that holds key 1 until tick 3.
abbrev loaded : Shard ℕ (List (List (CacheEvent ℕ)))
loaded = Option.get_or (handle env start (insert 1 3)) start

loaded-IsReady : IsReady env.hash loaded
unfolding program
loaded-IsReady = handle-IsReady env start (insert 1 3) start-IsReady

on_tick-Ticked_example :
    Returns
      (on_tick env loaded 1000)
      (λ s'. Ticked env.hash loaded s' (target loaded 1000 - loaded.tick))
on_tick-Ticked_example = on_tick-Ticked env loaded 1000 loaded-IsReady

insert-Put_example : Returns (handle env loaded (insert 4 7)) (Put env loaded 4 loaded-IsReady 7)
insert-Put_example = insert-Put env loaded 4 loaded-IsReady 7

refresh-Renewed_example :
    Returns (handle env loaded (refresh 1)) (Renewed env loaded 1 loaded-IsReady)
refresh-Renewed_example = refresh-Renewed env loaded 1 loaded-IsReady

run-new-IsReady_example : Returns (run env passes (new 8 [])) (IsReady env.hash)
run-new-IsReady_example = run-new-IsReady env 8 [] passes (omega arith)
