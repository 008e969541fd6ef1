-- ===== src/Wheel/State.antt =====
-- base/src/cache/c100k.rs: the entry table with its free list, the hash index, and the state of a
-- shard. A vector whose length never changes is a function on its indices beside its length;
-- `none` is a panic (an index out of range, a read of a key that was never written).
use pigs.Prelude.{ℕ, ◌%◌, Bool, Option, List}

abbrev pub u32 : ℕ → ℕ
u32 n = n % 4294967296

abbrev pub u64 : ℕ → ℕ
u64 n = n % 18446744073709551616

abbrev pub wheel_l1_len : ℕ
wheel_l1_len = 512

abbrev pub wheel_l2_len : ℕ
wheel_l2_len = 128

abbrev pub wheel_l3_len : ℕ
wheel_l3_len = 128

abbrev pub max_catchup : ℕ
max_catchup = 1024

abbrev pub tick_ms : ℕ
tick_ms = 200

abbrev pub batch_len : ℕ
batch_len = 64

abbrev pub compact_threshold : ℕ
compact_threshold = 1024

pub record CacheEvent (K : Type 0) : Type 0 where
  pub key : K
  pub hash : ℕ
  pub version : ℕ

pub data Command (K : Type 0) : Type 0 where
  insert : K → ℕ → Command K
  refresh : K → Command K
  delete : K → Command K

-- `key` is `none` where the memory holds no key.
pub record Entry (K : Type 0) : Type 0 where
  pub key : Option K
  pub hash : ℕ
  pub version : ℕ
  pub expire_tick : ℕ
  pub ttl_tick : ℕ
  pub next_free : ℕ
  pub in_use : Bool

-- The entry slots, the list of the free ones that runs through `next_free`, and the hash index.
pub record Table (K : Type 0) : Type 0 where
  pub len : ℕ
  pub entries : ℕ → Entry K
  pub free_head : ℕ
  pub index_map : ℕ → Option (List ℕ)

-- A wheel is an array of buckets; a bucket holds entry indices with the version they refer to.
abbrev pub Wheel : Type 0
Wheel = ℕ → List (ℕ × ℕ)

pub record Wheels : Type 0 where
  pub wheel_l1 : Wheel
  pub wheel_l2 : Wheel
  pub wheel_l3 : Wheel

-- The fields of `Shard`, those of the slots and of the wheels grouped. `C` is the sending half of
-- the event channel; the receiving half of the command channel and the start time are the inputs of
-- `Run.antt`.
pub record Shard (K C : Type 0) : Type 0 where
  pub table : Table K
  pub open table use *
  pub wheels : Wheels
  pub open wheels use *
  pub tick : ℕ
  pub event_tx : C
  pub batch : List (CacheEvent K)
