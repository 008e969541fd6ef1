-- ===== src/Wheel/Table.antt =====
-- base/src/cache/c100k.rs: the slots of a shard, their free list and the hash index.
use pigs.Prelude.{
  ℕ, ◌+◌, Bool, true, false, Option, none, some, List, [], ◌∷◌, ◌++◌, ltb, leb, ◌==◌, if◌then◌else◌,
  update, ◌>>=◌, ite,
}
use pigs.Wheel.State.{u32, u64, Entry, Table}
pub mod Index
pub mod Sound
pub mod Find
pub mod Slots
pub mod Keeps

unfoldable pub new_empty : {K : Type 0} → ℕ → Entry K
new_empty next_free = record {
  key = none;
  hash = 0;
  version = 0;
  expire_tick = 0;
  ttl_tick = 0;
  next_free = next_free;
  in_use = false;
}

unfoldable pub write : {K : Type 0} → Entry K → K → ℕ → ℕ → ℕ → Entry K
write e key hash ttl_tick now_tick = record e {
  key = some key;
  hash = hash;
  version = 1;
  ttl_tick = ttl_tick;
  expire_tick = u64 (now_tick + ttl_tick);
  in_use = true;
}

-- `v[0]` becomes the last item of `v`, which is popped.
unfoldable pub move_last : List ℕ → List ℕ
move_last [] = []
move_last (x ∷ []) = x ∷ []
move_last (x ∷ y ∷ xs) = elim (move_last (y ∷ xs)) [ [] ↦ x ∷ [] | z ∷ zs ↦ z ∷ x ∷ zs ]

-- `v.iter().position(|&x| x == idx).map(|pos| v.swap_remove(pos))`.
unfoldable pub swap_remove : List ℕ → ℕ → List ℕ
swap_remove [] idx = []
swap_remove (x ∷ xs) idx =
    let rest = swap_remove xs idx in if x == idx then move_last xs else x ∷ rest

module _ {K : Type 0} where
  unfoldable pub new_table : ℕ → Table K
  new_table capacity = record {
    len = capacity;
    entries = λ i. new_empty (u32 (i + 1));
    free_head = 0;
    index_map = λ h. none;
  }

  -- `self.entries[idx]`, to read and to write.
  abbrev pub entry_at : Table K → ℕ → Option (Entry K)
  entry_at s idx = if ltb idx s.len then some (s.entries idx) else none

  abbrev pub set_entry : Table K → ℕ → Entry K → Table K
  set_entry s idx e = record s { entries = update s.entries idx e }

  unfoldable pub alloc : Table K → Option ℕ × Table K
  alloc s =
      if leb s.len s.free_head
      then (none, s)
      else (some s.free_head, record s { free_head = (s.entries s.free_head).next_free })

  unfoldable pub free : Table K → ℕ → Option (Table K)
  free s idx = do
    e ← entry_at s idx
    let key = if e.in_use then none else e.key
    let e' = record e { key = key; in_use = false; next_free = s.free_head }
    some (record (set_entry s idx e') { free_head = idx })

  unfoldable pub insert_index : Table K → ℕ → ℕ → Table K
  insert_index s hash idx = record s {
    index_map =
        update s.index_map hash
          (some (elim (s.index_map hash) [ none ↦ [] | some v ↦ v ] ++ idx ∷ []));
  }

  unfoldable pub remove_index : Table K → ℕ → ℕ → Table K
  remove_index s hash idx = record s {
    index_map = elim (s.index_map hash) [
      | none ↦ s.index_map
      | some v ↦
          update s.index_map hash (elim (swap_remove v idx) [ [] ↦ none | x ∷ xs ↦ some (x ∷ xs) ])
    ];
  }

  -- What `process_bucket` does to the slots for an expired entry `e` at `idx`, its key taken out.
  unfoldable pub take_expired : Table K → ℕ → Entry K → Table K
  take_expired s idx e =
      let taken = set_entry s idx (record e { key = none; in_use = false }) in
      let t = remove_index taken e.hash idx in
      record (set_entry t idx (record (t.entries idx) { next_free = t.free_head })) {
        free_head = idx;
      }

  unfoldable pub find_in : Discrete K → Table K → K → List ℕ → Option (Option ℕ)
  find_in key_eq s key [] = some none
  find_in key_eq s key (idx ∷ list) = do
    e ← entry_at s idx
    if e.in_use
        then (do k ← e.key; ite (key_eq k key) (some (some idx)) (find_in key_eq s key list))
        else find_in key_eq s key list

  unfoldable pub find_entry : Discrete K → Table K → K → ℕ → Option (Option ℕ)
  find_entry key_eq s key hash = elim (s.index_map hash) [
    | none ↦ some none
    | some list ↦ find_in key_eq s key list
  ]
