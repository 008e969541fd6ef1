-- ===== src/Wheel/Run.antt =====
-- base/src/cache/c100k.rs: expiry, the clock, the commands and the task of a shard. What the shard
-- takes from elsewhere (`Env`) is a parameter of the section.
use pigs.Prelude.{
  ℕ, zero, suc, ◌+◌, ◌*◌, ◌-◌, ◌/◌, ◌%◌, Bool, true, false, not, ◌&&◌, ◌||◌, Option, none, some,
  List, [], ◌∷◌, ◌++◌, ltb, leb, ◌==◌, if◌then◌else◌, update, ◌>>=◌, length, min,
}
use pigs.Wheel.State.{
  u32, u64, wheel_l1_len, max_catchup, tick_ms, batch_len, CacheEvent, Command, Table, Table,
  insert, refresh, delete, Shard, Entry,
}
use pigs.Wheel.Table.{
  write, entry_at, set_entry, alloc, free, insert_index, remove_index, take_expired, find_entry,
}
use pigs.Wheel.Ops.{schedule, cascade, compact}
pub mod Commands
pub mod Expiry
pub mod Tick
pub mod Keys
pub mod Task

-- What one pass of the task's loop meets: the commands that wait, whether the command channel is
-- still open behind them, and the time at which the ticker fires.
pub record Pass (K : Type 0) : Type 0 where
  pub commands : List (Command K)
  pub connected : Bool
  pub elapsed : ℕ

-- What the shard takes from elsewhere: equality and hash of its keys, and the non-blocking send on
-- the event channel, which fails when the channel is full or closed.
pub record Env (K C : Type 0) : Type 0 where
  pub key_eq : Discrete K
  pub hash : K → ℕ
  pub try_send : C → List (CacheEvent K) → Option C

-- The tick that `on_tick` advances to.
abbrev pub target : {K C : Type 0} → Shard K C → ℕ → ℕ
target s elapsed = min (u64 elapsed / tick_ms) (u64 (s.tick + max_catchup))

module _ {K C : Type 0} (env : Env K C) where
  -- The batch is taken out of the shard before it is known whether the channel takes it.
  unfoldable pub flush : Shard K C → Shard K C
  flush s = elim (env.try_send s.event_tx s.batch) [
    | none ↦ record s { batch = [] }
    | some tx ↦ record s { event_tx = tx; batch = [] }
  ]

  -- What `process_bucket` does with an entry that has expired.
  unfoldable pub expire : Shard K C → ℕ → Entry K → Option (Shard K C)
  expire s idx e = do
    key ← e.key
    let s' = record s {
      table = take_expired s.table idx e;
      batch = s.batch ++ record { key = key; hash = e.hash; version = e.version } ∷ [];
    }
    some (if leb batch_len (length s'.batch) then flush s' else s')

  unfoldable pub process_one : Shard K C → ℕ × ℕ → Option (Shard K C)
  process_one s (idx, ver) = do
    e ← entry_at s.table idx
    if not e.in_use || not (e.version == ver)
        then some s
        else if ltb s.tick e.expire_tick
        then schedule s idx
        else expire s idx e

  unfoldable pub process_bucket : List (ℕ × ℕ) → Shard K C → Option (Shard K C)
  process_bucket [] s = some s
  process_bucket (item ∷ bucket) s = do s' ← process_one s item; process_bucket bucket s'

  -- One round of the loop of `on_tick`. The test `tick < target` keeps `tick + 1` in range.
  unfoldable pub advance : Shard K C → Option (Shard K C)
  advance s = do
    s' ← cascade (record s { tick = s.tick + 1 })
    let slot = s'.tick % wheel_l1_len
    let bucket = s'.wheel_l1 slot
    let taken = record s' { wheels = record s'.wheels { wheel_l1 = update s'.wheel_l1 slot [] } }
    live ← compact taken bucket
    process_bucket live taken

  unfoldable pub catch_up : ℕ → Shard K C → Option (Shard K C)
  catch_up zero s = some s
  catch_up (suc rounds) s = do s' ← advance s; catch_up rounds s'

  unfoldable pub flush_rest : Shard K C → Shard K C
  flush_rest s = elim s.batch [ [] ↦ s | _ ∷ _ ↦ flush s ]

  unfoldable pub on_tick : Shard K C → ℕ → Option (Shard K C)
  on_tick s elapsed = do s' ← catch_up (target s elapsed - s.tick) s; some (flush_rest s')

  -- `Shard::delete`, which is also how `Shard::insert` drops an entry of the same key.
  unfoldable pub delete_key : Table K → K → Option (Table K)
  delete_key s key = do
    found ← find_entry env.key_eq s key (env.hash key)
    elim found [ none ↦ some s | some idx ↦ free (remove_index s (env.hash key) idx) idx ]

  -- The slot that an insertion takes, with its entry written and indexed.
  unfoldable pub take_slot : Table K → K → ℕ → ℕ → Option (Option ℕ × Table K)
  take_slot s key ttl_tick tick =
      let (slot, t) = alloc s in
      elim slot [
        | none ↦ some (none, t)
        | some idx ↦ do
          e ← entry_at t idx
          let h = env.hash key
          some (some idx, insert_index (set_entry t idx (write e key h ttl_tick tick)) h idx)
      ]

  unfoldable pub insert_key : Shard K C → K → ℕ → Option (Shard K C)
  insert_key s key ttl_tick = do
    t ← delete_key s.table key
    (slot, t') ← take_slot t key ttl_tick s.tick
    let s' = record s { table = t' }
    elim slot [ none ↦ some s' | some idx ↦ schedule s' idx ]

  unfoldable pub refresh_key : Shard K C → K → Option (Shard K C)
  refresh_key s key = do
    found ← find_entry env.key_eq s.table key (env.hash key)
    elim found [
      | none ↦ some s
      | some idx ↦ do
        e ← entry_at s.table idx
        let e' = record e { version = u32 (e.version + 1); expire_tick = u64 (s.tick + e.ttl_tick) }
        schedule (record s { table = set_entry s.table idx e' }) idx
    ]

  unfoldable pub handle : Shard K C → Command K → Option (Shard K C)
  handle s (insert key ttl) = insert_key s key ttl
  handle s (refresh key) = refresh_key s key
  handle s (delete key) = do t ← delete_key s.table key; some (record s { table = t })

  unfoldable pub handle_all : List (Command K) → Shard K C → Option (Shard K C)
  handle_all [] s = some s
  handle_all (cmd ∷ cmds) s = do s' ← handle s cmd; handle_all cmds s'

  -- The task's loop, over the passes that its environment makes.
  unfoldable pub run : List (Pass K) → Shard K C → Option (Shard K C)
  run [] s = some s
  run (pass ∷ passes) s = do
    s' ← handle_all pass.commands s
    if pass.connected
        then (do s'' ← on_tick s' pass.elapsed; run passes s'')
        else some (flush_rest s')
