-- ===== src/Wheel/Run/Commands.antt =====
-- base/src/cache/c100k.rs: what the commands do to the slots, a map from keys to deadlines.
use pigs.Prelude.{
  ℕ, ◌+◌, ◌≤◌, ◌<◌, true, Option, none, some, List, [], ◌∷◌, Returns-mono, if◌then◌else◌, ◌≡◌, ◌≢◌,
  refl, arith, count, Returns, Returns-bind, ap, ◌∙◌,
}
use native.Mathlib.Decide.{dec_le}
use pigs.Wheel.State.{u64, Table}
use pigs.Wheel.Table.{alloc, free, write, insert_index, remove_index, find_entry}
use pigs.Wheel.Table.Sound.{live, vacant, IsSound, Linked, next_of}
use pigs.Wheel.Table.Find.{Finds, find_entry-Finds}
use pigs.Wheel.Table.Slots.{Vacated, Occupied, Vacated-IsSound, live_of-Vacated}
use pigs.Wheel.Table.Keeps.{free-Vacated, insert-Occupied, occupied}
use pigs.Wheel.Run.{Env, delete_key, take_slot}

-- `t` is `s` without the slot of `key`, if there was one.
pub record Deleted {K : Type 0} (hash : K → ℕ) (s t : Table K) (key : K) : Type 0 where
  pub sound : IsSound hash t
  pub same_len : t.len ≡ s.len
  pub absent : (i : ℕ) → live t i ≡ true → (t.entries i).key ≢ some key
  pub from : (i : ℕ) → live t i ≡ true → (live s i ≡ true) × (t.entries i ≡ s.entries i)
  pub kept :
      (i : ℕ)
      → live s i ≡ true
      → (s.entries i).key ≢ some key
      → (live t i ≡ true) × (t.entries i ≡ s.entries i)

module _ {K C : Type 0} (env : Env K C) (s : Table K) (key : K) (sound : IsSound env.hash s) where
  Deleted-of-Vacated :
      (idx : ℕ) (t : Table K)
      → live s idx ≡ true
      → (s.entries idx).key ≡ some key
      → Vacated s t idx
      → Deleted env.hash s t key
  Deleted-of-Vacated idx t was here v = record {
    sound = Vacated-IsSound env.hash s t idx sound was v;
    same_len = v.same_len;
    absent = λ i alive e.
        let (before, other, same) = live_of-Vacated env.hash s t idx sound was v i alive in
        other (sound.unique i idx before was (ground arith));
    from = λ i alive.
        let (before, other, same) = live_of-Vacated env.hash s t idx sound was v i alive in
        (before, same);
    kept = λ i alive miss.
        let same = v.others i (λ e. miss (ground (arith, ap s.entries e))) in
        (ground (arith, v.same_len), same);
  }

  hash_of_live :
      (idx : ℕ)
      → live s idx ≡ true
      → (s.entries idx).key ≡ some key
      → (s.entries idx).hash ≡ env.hash key
  hash_of_live idx was here =
      let (k, written, h) = sound.keyed idx was in let same : k ≡ key = cc in h ∙ ap env.hash same

  vacate : Option ℕ → Option (Table K)
  vacate found = elim found [
    | none ↦ some s
    | some idx ↦ free (remove_index s (env.hash key) idx) idx
  ]

  vacate-Deleted :
      (r : Option ℕ)
      → Finds env.hash env.key_eq s sound key r
      → Returns (vacate r) (λ t. Deleted env.hash s t key)
  unfolding vacate
  vacate-Deleted none found = record {
    sound = sound;
    same_len = refl;
    absent = found;
    from = λ i alive. (alive, refl);
    kept = λ i alive miss. (alive, refl);
  }
  vacate-Deleted (some idx) (was, here) = rw (← hash_of_live idx was here) (
      Returns-mono (λ t. Vacated s t idx) (λ t. Deleted env.hash s t key) _
        (λ t. Deleted-of-Vacated idx t was here) (free-Vacated s idx (ground arith)))

  -- Deleting never panics; it removes the slot of the key and no other.
  pub delete_key-Deleted : Returns (delete_key env s key) (λ t. Deleted env.hash s t key)
  unfolding delete_key vacate
  delete_key-Deleted =
      Returns-bind (Finds env.hash env.key_eq s sound key) (λ t. Deleted env.hash s t key)
        (find_entry env.key_eq s key (env.hash key)) vacate
        (find_entry-Finds env.hash env.key_eq s sound key) vacate-Deleted

-- What an insertion of a key that no live slot has leaves: the first free slot holds it, at
-- version 1 and with the deadline `expire_tick`; or no slot is free, and nothing changed.
abbrev pub Taken : {K : Type 0} → (K → ℕ) → Table K → K → ℕ → ℕ → Option ℕ × Table K → Type 0
Taken hash s key ttl_tick expire_tick (none, t) = (t ≡ s) × ((i : ℕ) → i < s.len → live s i ≡ true)
Taken hash s key ttl_tick expire_tick (some idx, t) =
    Occupied s t idx hash key
    × ((t.entries idx).version ≡ 1)
    × ((t.entries idx).ttl_tick ≡ ttl_tick)
    × ((t.entries idx).expire_tick ≡ expire_tick)

module _ {K C : Type 0} (env : Env K C) (s : Table K) (key : K) (ttl_tick tick : ℕ)
    (sound : IsSound env.hash s) where
  full : s.len ≤ s.free_head → (i : ℕ) → i < s.len → live s i ≡ true
  full h i within = no_list sound.free_list sound.linked sound.free_exact
    where
      no_list :
          (l : List ℕ)
          → Linked (next_of s.entries) s.len s.free_head l
          → ((i : ℕ) → count i l ≡ (if vacant s i then 1 else 0))
          → live s i ≡ true
      no_list [] links exact = ground (arith, exact i)
      no_list (x ∷ l) links exact = absurd (omega arith)

  take_slot_full : s.len ≤ s.free_head → take_slot env s key ttl_tick tick ≡ some (none, s)
  unfolding take_slot alloc
  take_slot_full h = ground arith

  take_slot_free :
      s.free_head < s.len
      → take_slot env s key ttl_tick tick
        ≡ some (some s.free_head, occupied s s.free_head env.hash key ttl_tick tick)
  unfolding take_slot alloc
  take_slot_free h = ground arith

  Taken-free :
      s.free_head < s.len
      → Taken env.hash s key ttl_tick
          (u64 (tick + ttl_tick))
          (some s.free_head, occupied s s.free_head env.hash key ttl_tick tick)
  unfolding write insert_index
  Taken-free h = (
    insert-Occupied s s.free_head env.hash key ttl_tick tick refl h,
    ground arith,
    ground arith,
    ground arith,
  )

  -- Taking a slot never panics; it fails exactly when every slot is live.
  pub take_slot-Taken :
      Returns
        (take_slot env s key ttl_tick tick)
        (Taken env.hash s key ttl_tick (u64 (tick + ttl_tick)))
  take_slot-Taken = elim (dec_le s.len s.free_head) [
    | yes h ↦ rw (take_slot_full h) (refl, full h)
    | no h ↦
        let within : s.free_head < s.len = omega arith in
        rw (take_slot_free within) (Taken-free within)
  ]
