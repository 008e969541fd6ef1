-- ===== src/Wheel/Run/Task.antt =====
-- base/src/cache/c100k.rs: the clock's `on_tick`, and whole runs of the shard's task.
use pigs.Prelude.{
  ℕ, ◌-◌, ◌<◌, Option, none, some, List, [], ◌∷◌, ◌≡◌, refl, arith, Returns, Returns-bind,
  Returns-mono, if_intro,
}
use pigs.Wheel.State.{CacheEvent, Shard, Command, insert, refresh, delete}
use pigs.Wheel.Table.Keeps.{new_table-IsSound}
use pigs.Wheel.Table.{new_table, new_empty}
use pigs.Wheel.Ops.{new}
use pigs.Wheel.Run.{
  Env, Pass, flush, flush_rest, catch_up, on_tick, target, handle, handle_all, run,
}
use pigs.Wheel.Run.Tick.{IsReady, Ticked, catch_up-Ticked}
use pigs.Wheel.Run.Keys.{insert-Put, refresh-Renewed, delete-Apart, Put, Renewed, HoldsAt, Apart}

module _ {K C : Type 0} (env : Env K C) where
  -- Sending changes only the channel and the batch.
  flush_rest_frame :
      (s : Shard K C)
      → (tx : C) × (batch : List (CacheEvent K)) × (flush_rest env s
          ≡ record s { event_tx = tx; batch = batch })
  unfolding flush_rest flush
  flush_rest_frame s = split s.batch refl (env.try_send s.event_tx s.batch) refl
    where
      split :
          (b : List (CacheEvent K))
          → s.batch ≡ b
          → (o : Option C) → env.try_send s.event_tx s.batch ≡ o
          → (tx : C) × (batch : List (CacheEvent K)) × (flush_rest env s
              ≡ record s { event_tx = tx; batch = batch })
      split [] e o e' = (s.event_tx, s.batch, ground (arith, e))
      split (x ∷ b) e none e' = (s.event_tx, [], ground (arith, e, e'))
      split (x ∷ b) e (some tx) e' = (tx, [], ground (arith, e, e'))

  IsReady-sent :
      (s : Shard K C) (tx : C) (batch : List (CacheEvent K))
      → IsReady env.hash s
      → IsReady env.hash (record s { event_tx = tx; batch = batch })
  IsReady-sent s tx batch r = record { sound = r.sound; bounded = r.bounded; waits = r.waits }

  flush_rest-IsReady : (s : Shard K C) → IsReady env.hash s → IsReady env.hash (flush_rest env s)
  flush_rest-IsReady s r =
      let (tx, batch, e) = flush_rest_frame s in rw e (IsReady-sent s tx batch r)

  flush_rest-Ticked :
      (s s' : Shard K C) (n : ℕ) → Ticked env.hash s s' n → Ticked env.hash s (flush_rest env s') n
  flush_rest-Ticked s s' n t =
      let (tx, batch, e) = flush_rest_frame s' in
      rw e (record {
        tick = t.tick;
        same_len = t.same_len;
        from = t.from;
        kept = t.kept;
        prompt = t.prompt;
        ready = IsReady-sent s' tx batch t.ready;
      })

  -- The clock's handler makes as many ticks as it has to catch up with, at most 1024.
  pub on_tick-Ticked :
      (s : Shard K C) (elapsed : ℕ)
      → IsReady env.hash s
      → Returns (on_tick env s elapsed) (λ s'. Ticked env.hash s s' (target s elapsed - s.tick))
  unfolding on_tick
  on_tick-Ticked s elapsed r =
      let n = target s elapsed - s.tick in
      Returns-bind (λ s'. Ticked env.hash s s' n) (λ s'. Ticked env.hash s s' n) (catch_up env n s)
        _ (catch_up-Ticked env n s r) (λ s'. flush_rest-Ticked s s' n)

  pub handle-IsReady :
      (s : Shard K C) (cmd : Command K)
      → IsReady env.hash s
      → Returns (handle env s cmd) (IsReady env.hash)
  handle-IsReady s (insert key ttl) r =
      Returns-mono (Put env s key r ttl) (IsReady env.hash) _ (λ s' p. p.0.ready)
        (insert-Put env s key r ttl)
  handle-IsReady s (refresh key) r =
      Returns-mono (Renewed env s key r) (IsReady env.hash) _ (λ s' p. p.0.ready)
        (refresh-Renewed env s key r)
  handle-IsReady s (delete key) r =
      Returns-mono (λ s'. Apart env.hash s s' key × ((i : ℕ) → ¬ HoldsAt s' key i))
        (IsReady env.hash) _ (λ s' p. p.0.ready) (delete-Apart env s key r)

  handle_all-IsReady :
      (cmds : List (Command K)) (s : Shard K C)
      → IsReady env.hash s
      → Returns (handle_all env cmds s) (IsReady env.hash)
  unfolding handle_all
  handle_all-IsReady [] s r = r
  handle_all-IsReady (cmd ∷ cmds) s r =
      Returns-bind (IsReady env.hash) (IsReady env.hash) (handle env s cmd) (handle_all env cmds)
        (handle-IsReady s cmd r) (handle_all-IsReady cmds)

  run-IsReady :
      (passes : List (Pass K)) (s : Shard K C)
      → IsReady env.hash s
      → Returns (run env passes s) (IsReady env.hash)
  unfolding run
  run-IsReady [] s r = r
  run-IsReady (pass ∷ passes) s r =
      Returns-bind (IsReady env.hash) (IsReady env.hash) (handle_all env pass.commands s) _
        (handle_all-IsReady pass.commands s r)
        (λ s' r'.
          if_intro {A = Option (Shard K C)} pass.connected (λ o. Returns o (IsReady env.hash))
            (Returns-bind (IsReady env.hash) (IsReady env.hash) (on_tick env s' pass.elapsed)
              (run env passes)
              (Returns-mono (λ u. Ticked env.hash s' u (target s' pass.elapsed - s'.tick))
                (IsReady env.hash) _ (λ u t. t.ready) (on_tick-Ticked s' pass.elapsed r'))
              (run-IsReady passes))
            (flush_rest-IsReady s' r'))

  pub new-IsReady :
      (capacity : ℕ) (tx : C) → capacity < 4294967296 → IsReady env.hash (new capacity tx)
  unfolding new new_table new_empty
  new-IsReady capacity tx h = record {
    sound = new_table-IsSound env.hash capacity h;
    bounded = record { l1 = λ slot. tt; l2 = λ slot. tt; l3 = λ slot. tt };
    waits = λ i alive. absurd (ground arith);
  }

  -- From a new shard no run of the task panics, whatever the commands and the times, and it leaves
  -- the shard ready: slots, index and free list agree, and every live entry waits for its deadline.
  pub run-new-IsReady :
      (capacity : ℕ) (tx : C) (passes : List (Pass K))
      → capacity < 4294967296
      → Returns (run env passes (new capacity tx)) (IsReady env.hash)
  run-new-IsReady capacity tx passes h =
      run-IsReady passes (new capacity tx) (new-IsReady capacity tx h)
