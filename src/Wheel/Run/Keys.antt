-- ===== src/Wheel/Run/Keys.antt =====
-- base/src/cache/c100k.rs: the commands on a ready shard, seen as a map from keys to deadlines.
use pigs.Prelude.{
  ℕ, ◌+◌, ◌<◌, true, Option, none, some, ltb, lt→ltb, ◌≡◌, ◌≢◌, refl, arith, inl, inr, ◌⊎◌, ap, sym,
  ◌∙◌, subst, ◌>>=◌, Returns, Returns-bind,
}
use native.Mathlib.Decide.{ℕ_discrete}
use pigs.Wheel.State.{Wheels, Table, Shard, insert, refresh, delete, u32, u64}
use pigs.Wheel.Table.{entry_at, set_entry, find_entry}
use pigs.Wheel.Table.Sound.{live, IsSound}
use pigs.Wheel.Table.Find.{Finds, find_entry-Finds}
use pigs.Wheel.Table.Slots.{Occupied-IsSound, live_of-Occupied, was_vacant}
use pigs.Wheel.Table.Keeps.{set_entry-IsSound}
use pigs.Wheel.Ops.{place, schedule}
use pigs.Wheel.Ops.Due.{Waiting, Waiting-place, Waiting-place_self}
use pigs.Wheel.Ops.Cascade.{AllBounded, AllWaiting, place-AllBounded}
use pigs.Wheel.Run.{Env, delete_key, take_slot, insert_key, refresh_key, handle}
use pigs.Wheel.Run.Commands.{Deleted, delete_key-Deleted, Taken, take_slot-Taken}
use pigs.Wheel.Run.Tick.{IsReady}

-- The shard holds `key` in slot `i`.
abbrev pub HoldsAt : {K C : Type 0} → Shard K C → K → ℕ → Type 0
HoldsAt s key i = (live s.table i ≡ true) × ((s.entries i).key ≡ some key)

-- A command about `key` leaves every other key as it is.
pub record Apart {K C : Type 0} (hash : K → ℕ) (s s' : Shard K C) (key : K) : Type 0 where
  pub ready : IsReady hash s'
  pub same_tick : s'.tick ≡ s.tick
  pub same_len : s'.len ≡ s.len
  pub from :
      (i : ℕ)
      → live s'.table i ≡ true
      → (s'.entries i).key ≢ some key
      → (live s.table i ≡ true) × (s'.entries i ≡ s.entries i)
  pub kept :
      (i : ℕ)
      → live s.table i ≡ true
      → (s.entries i).key ≢ some key
      → (live s'.table i ≡ true) × (s'.entries i ≡ s.entries i)

-- Scheduling the entry of one slot: the other live entries waited before.
schedule-IsReady :
    {K C : Type 0} (hash : K → ℕ) (s : Shard K C) (idx : ℕ)
    → IsSound hash s.table
    → AllBounded s.len s.wheels
    → idx < s.len
    → ((i : ℕ)
        → live s.table i ≡ true
        → i ≢ idx
        → Waiting s.wheels s.tick i (s.entries i).version (s.entries i).expire_tick)
    → (w : Wheels) × (schedule s idx ≡ some (record s { wheels = w }))
      × IsReady hash (record s { wheels = w })
unfolding schedule
schedule-IsReady hash s idx sound ok within waits = (
  w,
  rw (lt→ltb idx s.len within),
  record {
    sound = sound;
    bounded = place-AllBounded s.len s.wheels s.tick idx _ _ within ok;
    waits = λ i alive. elim (ℕ_discrete idx i) [
      | yes e ↦
          subst (λ k. Waiting w s.tick k (s.entries k).version (s.entries k).expire_tick) e
            (Waiting-place_self s.wheels s.tick idx _ _)
      | no ne ↦ Waiting-place s.wheels s.tick _ _ i _ _ (waits i alive (λ e. ne (sym e)))
    ];
  },
)
  where
    w : Wheels
    w = place s.wheels s.tick (idx, (s.entries idx).version) (s.entries idx).expire_tick

module _ {K C : Type 0} (env : Env K C) (s : Shard K C) (key : K) (r : IsReady env.hash s) where
  waits_after : (t : Table K) → Deleted env.hash s.table t key → AllWaiting t s.wheels s.tick
  waits_after t d i alive = let (before, same) = d.from i alive in rw same (r.waits i before)

  Apart-Deleted :
      (t : Table K) → Deleted env.hash s.table t key → Apart env.hash s (record s { table = t }) key
  Apart-Deleted t d = record {
    ready = record {
      sound = d.sound;
      bounded = subst (λ n. AllBounded n s.wheels) (sym d.same_len) r.bounded;
      waits = waits_after t d;
    };
    same_tick = refl;
    same_len = d.same_len;
    from = λ i alive _. d.from i alive;
    kept = d.kept;
  }

  -- `delete` removes the key and nothing else.
  pub delete-Apart :
      Returns
        (handle env s (delete key))
        (λ s'. Apart env.hash s s' key × ((i : ℕ) → ¬ HoldsAt s' key i))
  unfolding handle
  delete-Apart =
      Returns-bind (λ t. Deleted env.hash s.table t key) _ (delete_key env s.table key) _
        (delete_key-Deleted env s.table key r.sound)
        (λ t d. (Apart-Deleted t d, λ i (alive, here). d.absent i alive here))

  -- What an insertion leaves: the key at version 1 with the new deadline, or a shard with no free
  -- slot and without the key.
  abbrev pub Inserted : ℕ → Shard K C → Type 0
  Inserted ttl s' =
      ((idx : ℕ) × HoldsAt s' key idx
        × ((s'.entries idx).version ≡ 1)
        × ((s'.entries idx).ttl_tick ≡ ttl)
        × ((s'.entries idx).expire_tick ≡ u64 (s.tick + ttl)))
      ⊎ (((i : ℕ) → i < s'.len → live s'.table i ≡ true) × ((i : ℕ) → ¬ HoldsAt s' key i))

  insert_into : ℕ → Option ℕ × Table K → Option (Shard K C)
  insert_into ttl (slot, t') = elim slot [
    | none ↦ some (record s { table = t' })
    | some idx ↦ schedule (record s { table = t' }) idx
  ]

  abbrev pub Put : ℕ → Shard K C → Type 0
  Put ttl s' = Apart env.hash s s' key × Inserted ttl s'

  module _ (t : Table K) (d : Deleted env.hash s.table t key) (ttl : ℕ) where
    occupied-Put :
        (idx : ℕ) (t' : Table K)
        → Taken env.hash t key ttl (u64 (s.tick + ttl)) (some idx, t')
        → Returns (schedule (record s { table = t' }) idx) (Put ttl)
    occupied-Put idx t' (v, version, ttl_is, expire_is) =
        let old = live_of-Occupied env.hash t t' idx d.sound key v d.absent in
        let sound' = Occupied-IsSound env.hash t t' idx d.sound key v d.absent in
        let other : (i : ℕ)
            → live t' i ≡ true
            → i ≢ idx
            → (live t i ≡ true) × (t'.entries i ≡ t.entries i) =
          λ i alive ne. elim (old i alive) [
            | inl e ↦ absurd (ne e)
            | inr (before, _, same) ↦ (before, same)
          ] in
        let len' : t'.len ≡ s.len = v.same_len ∙ d.same_len in
        let (w, ran, ready) =
          schedule-IsReady env.hash (record s { table = t' }) idx sound'
            (subst (λ n. AllBounded n s.wheels) (sym len') r.bounded)
            (omega (arith, v.within, v.same_len))
            (λ i alive ne.
              let (before, same) = other i alive ne in rw same (waits_after t d i before)) in
        rw ran (
          record {
            ready = ready;
            same_tick = refl;
            same_len = len';
            from = λ i alive miss.
                let (before, same) =
                  other i alive (λ e. miss (ap (λ k. (t'.entries k).key) e ∙ v.has_key)) in
                let (first, same') = d.from i before in (first, same ∙ same');
            kept = λ i alive miss.
                let (mid, same) = d.kept i alive miss in
                let ne : i ≢ idx = λ e. ground (
                  arith,
                  mid,
                  was_vacant env.hash t t' idx d.sound key v d.absent,
                  ap (live t) e,
                ) in
                (ground (arith, v.others i ne, v.same_len), v.others i ne ∙ same);
          },
          inl (
            idx,
            (ground (arith, v.taken, v.within, v.same_len), v.has_key),
            version,
            ttl_is,
            expire_is,
          ),
        )

    insert_into-Put :
        (taken : Option ℕ × Table K)
        → Taken env.hash t key ttl (u64 (s.tick + ttl)) taken
        → Returns (insert_into ttl taken) (Put ttl)
    unfolding insert_into
    insert_into-Put (none, t') (e, full) = rw e (
      Apart-Deleted t d,
      inr (λ i within. full i within, λ i (alive, here). d.absent i alive here),
    )
    insert_into-Put (some idx, t') h = occupied-Put idx t' h

  -- `insert` replaces an entry of the key, at version 1 and with a new deadline, unless no slot is
  -- free; every other key keeps its entry.
  pub insert-Put : (ttl : ℕ) → Returns (handle env s (insert key ttl)) (Put ttl)
  unfolding handle insert_key insert_into
  insert-Put ttl =
      Returns-bind (λ t. Deleted env.hash s.table t key) (Put ttl) (delete_key env s.table key) _
        (delete_key-Deleted env s.table key r.sound)
        (λ t d.
          Returns-bind (Taken env.hash t key ttl (u64 (s.tick + ttl))) (Put ttl)
            (take_slot env t key ttl s.tick) (insert_into ttl)
            (take_slot-Taken env t key ttl s.tick d.sound) (insert_into-Put t d ttl))

  -- What a refresh leaves: the same slot, at the next version and with a deadline as far away as
  -- when it was inserted; or, where the key is absent, the shard as it was.
  abbrev pub Refreshed : Shard K C → Type 0
  Refreshed s' =
      ((idx : ℕ) × HoldsAt s key idx
        × HoldsAt s' key idx
        × ((s'.entries idx).version ≡ u32 ((s.entries idx).version + 1))
        × ((s'.entries idx).ttl_tick ≡ (s.entries idx).ttl_tick)
        × ((s'.entries idx).expire_tick ≡ u64 (s.tick + (s.entries idx).ttl_tick)))
      ⊎ (((i : ℕ) → ¬ HoldsAt s key i) × (s' ≡ s))

  refresh_at : Option ℕ → Option (Shard K C)
  refresh_at found = elim found [
    | none ↦ some s
    | some idx ↦ do
      e ← entry_at s.table idx
      let e' = record e { version = u32 (e.version + 1); expire_tick = u64 (s.tick + e.ttl_tick) }
      schedule (record s { table = set_entry s.table idx e' }) idx
  ]

  abbrev pub Renewed : Shard K C → Type 0
  Renewed s' = Apart env.hash s s' key × Refreshed s'

  module _ (idx : ℕ) (was : live s.table idx ≡ true) (here : (s.entries idx).key ≡ some key) where
    abbrev renewed : Table K
    renewed = set_entry s.table idx (record (s.entries idx) {
      version = u32 ((s.entries idx).version + 1);
      expire_tick = u64 (s.tick + (s.entries idx).ttl_tick);
    })

    renewed-other : (i : ℕ) → i ≢ idx → renewed.entries i ≡ s.entries i
    renewed-other i ne = ground arith

    renewed-live : (i : ℕ) → live renewed i ≡ live s.table i
    renewed-live i = ground arith

    renewed-key : (i : ℕ) → (renewed.entries i).key ≡ (s.entries i).key
    renewed-key i = ground arith

    refresh_hit : Returns (schedule (record s { table = renewed }) idx) Renewed
    refresh_hit =
        let (w, ran, ready) =
          schedule-IsReady env.hash (record s { table = renewed }) idx
            (set_entry-IsSound env.hash s.table idx _ _ r.sound) r.bounded (ground arith)
            (λ i alive ne. rw (renewed-other i ne) (r.waits i (sym (renewed-live i) ∙ alive))) in
        let other : (i : ℕ) → (s.entries i).key ≢ some key → i ≢ idx =
          λ i miss e. miss (ap (λ k. (s.entries k).key) e ∙ here) in
        rw ran (
          record {
            ready = ready;
            same_tick = refl;
            same_len = refl;
            from = λ i alive miss. (
              sym (renewed-live i) ∙ alive,
              renewed-other i (other i (λ e. miss (renewed-key i ∙ e))),
            );
            kept = λ i alive miss. (renewed-live i ∙ alive, renewed-other i (other i miss));
          },
          inl (
            idx,
            (was, here),
            (renewed-live idx ∙ was, renewed-key idx ∙ here),
            ground arith,
            ground arith,
            ground arith,
          ),
        )

  refresh_at-Renewed :
      (found : Option ℕ)
      → Finds env.hash env.key_eq s.table r.sound key found
      → Returns (refresh_at found) Renewed
  unfolding refresh_at
  refresh_at-Renewed none absent = (
    record {
      ready = r;
      same_tick = refl;
      same_len = refl;
      from = λ i alive _. (alive, refl);
      kept = λ i alive _. (alive, refl);
    },
    inr (λ i (alive, here). absent i alive here, refl),
  )
  refresh_at-Renewed (some idx) (was, here) =
      let within : ltb idx s.len ≡ true = ground arith in rw within (refresh_hit idx was here)

  -- `refresh` gives the entry of the key a new deadline and version, or does nothing; every other
  -- key keeps its entry.
  pub refresh-Renewed : Returns (handle env s (refresh key)) Renewed
  unfolding handle refresh_key refresh_at
  refresh-Renewed =
      Returns-bind (Finds env.hash env.key_eq s.table r.sound key) Renewed
        (find_entry env.key_eq s.table key (env.hash key)) refresh_at
        (find_entry-Finds env.hash env.key_eq s.table r.sound key) refresh_at-Renewed
