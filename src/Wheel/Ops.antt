-- ===== src/Wheel/Ops.antt =====
-- base/src/cache/c100k.rs: the wheels of a shard, how an entry is scheduled on them, and how its
-- reference moves to a finer wheel.
use pigs.Prelude.{
  ℕ, ◌+◌, ◌*◌, ◌-◌, ◌/◌, ◌%◌, Bool, ◌&&◌, Option, none, some, List, [], ◌∷◌, ◌++◌, ltb, leb, ◌==◌,
  if◌then◌else◌, update, ◌>>=◌, length,
}
use pigs.Wheel.State.{
  u64, wheel_l1_len, wheel_l2_len, wheel_l3_len, compact_threshold, Table, Wheel, Wheels, Shard,
}
use pigs.Wheel.Table.{entry_at, new_table}
pub mod Due
pub mod Arrive
pub mod Cascade

-- `wheel[slot].push(item)`.
abbrev pub push : Wheel → ℕ → ℕ × ℕ → Wheel
push w slot item = update w slot (w slot ++ item ∷ [])

-- The body of `schedule`, on the entry that it reads.
unfoldable pub place : Wheels → ℕ → ℕ × ℕ → ℕ → Wheels
place s tick item expire_tick =
    if leb expire_tick tick
    then record s { wheel_l1 = push s.wheel_l1 (u64 (tick + 1) % wheel_l1_len) item }
    else if ltb (expire_tick - tick) wheel_l1_len
    then record s { wheel_l1 = push s.wheel_l1 (expire_tick % wheel_l1_len) item }
    else if ltb (expire_tick - tick) (wheel_l1_len * wheel_l2_len)
    then record s { wheel_l2 = push s.wheel_l2 ((expire_tick / wheel_l1_len) % wheel_l2_len) item }
    else record s {
      wheel_l3 =
          push s.wheel_l3 ((expire_tick / (wheel_l1_len * wheel_l2_len)) % wheel_l3_len) item;
    }

module _ {K C : Type 0} where
  unfoldable pub new : ℕ → C → Shard K C
  new capacity event_tx = record {
    table = new_table capacity;
    wheels = record { wheel_l1 = λ slot. []; wheel_l2 = λ slot. []; wheel_l3 = λ slot. [] };
    tick = 0;
    event_tx = event_tx;
    batch = [];
  }

  unfoldable pub schedule : Shard K C → ℕ → Option (Shard K C)
  schedule s idx = do
    e ← entry_at s.table idx
    some (record s { wheels = place s.wheels s.tick (idx, e.version) e.expire_tick })

  -- The loop of both cascades: an item whose entry is live at its version is scheduled again.
  unfoldable pub reschedule : List (ℕ × ℕ) → Shard K C → Option (Shard K C)
  reschedule [] s = some s
  reschedule ((idx, ver) ∷ bucket) s = do
    e ← entry_at s.table idx
    s' ← if e.in_use && e.version == ver then schedule s idx else some s
    reschedule bucket s'

  unfoldable pub cascade_l2 : Shard K C → Option (Shard K C)
  cascade_l2 s =
      let slot = (s.tick / wheel_l1_len) % wheel_l2_len in
      reschedule (s.wheel_l2 slot)
        (record s { wheels = record s.wheels { wheel_l2 = update s.wheel_l2 slot [] } })

  unfoldable pub cascade_l3 : Shard K C → Option (Shard K C)
  cascade_l3 s =
      let slot = (s.tick / (wheel_l1_len * wheel_l2_len)) % wheel_l3_len in
      reschedule (s.wheel_l3 slot)
        (record s { wheels = record s.wheels { wheel_l3 = update s.wheel_l3 slot [] } })

  -- The cascades that a new tick makes.
  unfoldable pub cascade : Shard K C → Option (Shard K C)
  cascade s =
      if s.tick % wheel_l1_len == 0
      then (do
        s' ← cascade_l2 s
        if (s'.tick / wheel_l1_len) % wheel_l2_len == 0 then cascade_l3 s' else some s')
      else some s

  -- `bucket.retain(..)`.
  unfoldable pub retain_live : Shard K C → List (ℕ × ℕ) → Option (List (ℕ × ℕ))
  retain_live s [] = some []
  retain_live s ((idx, ver) ∷ bucket) = do
    e ← entry_at s.table idx
    rest ← retain_live s bucket
    some (if e.in_use && e.version == ver then (idx, ver) ∷ rest else rest)

  unfoldable pub compact : Shard K C → List (ℕ × ℕ) → Option (List (ℕ × ℕ))
  compact s bucket =
      if ltb compact_threshold (length bucket) then retain_live s bucket else some bucket
