-- ===== src/Wheel/Table/Keeps.antt =====
-- base/src/cache/c100k.rs: each slot operation of the code does to the slots what `Slots` describes.
use pigs.Prelude.{
  lt→ltb, ℕ, zero, suc, ◌+◌, ◌<◌, ◌&&◌, List, [], ◌∷◌, ltb, leb, if◌then◌else◌, ◌≡◌, refl, arith,
  count, Returns,
}
use pigs.Wheel.State.{u32, Table}
use pigs.Wheel.Table.{
  new_empty, new_table, free, write, set_entry, insert_index, remove_index, take_expired,
}
use pigs.Wheel.Table.Index.{count-insert_index, count-remove_index}
use pigs.Wheel.Table.Sound.{next_of, Linked, Linked-ext, IsSound}
use pigs.Wheel.Table.Slots.{Vacated, Occupied}

module _ {K : Type 0} (s : Table K) (idx : ℕ) where
  -- Taking an expired entry out gives its slot back.
  pub take_expired-Vacated : Vacated s (take_expired s idx (s.entries idx)) idx
  unfolding take_expired remove_index
  take_expired-Vacated = record {
    same_len = refl;
    head = refl;
    others = λ i ne. ground arith;
    gone = ground arith;
    link = ground arith;
    index = λ h i. count-remove_index s (s.entries idx).hash idx h i;
  }

  -- So does freeing the slot after its index was removed.
  pub free-Vacated :
      idx < s.len
      → Returns (free (remove_index s (s.entries idx).hash idx) idx) (λ t. Vacated s t idx)
  unfolding free remove_index
  free-Vacated h = rw (lt→ltb idx s.len h) (record {
    same_len = refl;
    head = refl;
    others = λ i ne. ground arith;
    gone = ground arith;
    link = ground arith;
    index = λ h i. count-remove_index s (s.entries idx).hash idx h i;
  })

  abbrev pub occupied : (hash : K → ℕ) → K → ℕ → ℕ → Table K
  occupied hash key ttl_tick tick =
      insert_index
        (set_entry (record s { free_head = (s.entries idx).next_free }) idx
          (write (s.entries idx) key (hash key) ttl_tick tick))
        (hash key) idx

  -- Writing a key into the first free slot and indexing it occupies the slot.
  pub insert-Occupied :
      (hash : K → ℕ) (key : K) (ttl_tick tick : ℕ)
      → s.free_head ≡ idx
      → idx < s.len
      → Occupied s (occupied hash key ttl_tick tick) idx hash key
  unfolding insert_index write
  insert-Occupied hash key ttl_tick tick e h = record {
    same_len = refl;
    head = e;
    within = h;
    next = refl;
    others = λ i ne. ground arith;
    taken = ground arith;
    has_key = ground arith;
    has_hash = ground arith;
    index = λ g i. count-insert_index s (hash key) idx g i;
  }

-- A new deadline and version leave the slots as they are.
pub set_entry-IsSound :
    {K : Type 0} (hash : K → ℕ) (s : Table K) (idx version expire_tick : ℕ)
    → IsSound hash s
    → IsSound hash
        (set_entry s idx (record (s.entries idx) { version = version; expire_tick = expire_tick }))
set_entry-IsSound {K} hash s idx version expire_tick sound = record {
  free_list = sound.free_list;
  linked =
      Linked-ext (next_of s.entries) (next_of t.entries) s.len s.len s.free_head s.free_head
        sound.free_list refl refl (λ i c. ground arith) sound.linked;
  free_exact = λ i. ground (arith, sound.free_exact i);
  index_exact = λ h i. ground (arith, sound.index_exact h i);
  keyed =
      λ i alive. let (k, a, b) = sound.keyed i (ground arith) in (k, ground arith, ground arith);
  unique = λ i j a b e. sound.unique i j (ground arith) (ground arith) (ground arith);
}
  where
    t : Table K
    t = set_entry s idx (record (s.entries idx) { version = version; expire_tick = expire_tick })

-- The slots of a new shard, all free.
abbrev range_from : ℕ → ℕ → List ℕ
range_from i zero = []
range_from i (suc n) = i ∷ range_from (i + 1) n

count-range_from :
    (j i n : ℕ) → count j (range_from i n) ≡ (if leb i j && ltb j (i + n) then 1 else 0)
count-range_from j i zero = ground arith
count-range_from j i (suc n) = ground (arith, count-range_from j (i + 1) n)

Linked-range_from :
    (len i n : ℕ)
    → i + n ≡ len
    → len < 4294967296
    → Linked (λ j. u32 (j + 1)) len i (range_from i n)
Linked-range_from len i zero e h = omega arith
Linked-range_from len i (suc n) e h = (
  refl,
  omega arith,
  Linked-ext (λ j. u32 (j + 1)) (λ j. u32 (j + 1)) len len (i + 1) _ (range_from (i + 1) n) refl
      (omega arith) (λ j c. refl) (Linked-range_from len (i + 1) n (omega arith) h),
)

pub new_table-IsSound :
    {K : Type 0} (hash : K → ℕ) (capacity : ℕ)
    → capacity < 4294967296
    → IsSound hash (new_table {K = K} capacity)
unfolding new_table new_empty
new_table-IsSound hash capacity h = record {
  free_list = range_from 0 capacity;
  linked = Linked-range_from capacity 0 capacity (omega arith) h;
  free_exact = λ i. ground (arith, count-range_from i 0 capacity);
  index_exact = λ g i. ground arith;
  keyed = λ i alive. absurd (ground arith);
  unique = λ i j a b e. absurd (ground arith);
}
