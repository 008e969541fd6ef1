-- ===== src/Wheel/Table/Slots.antt =====
-- base/src/cache/c100k.rs: the slot operations keep the slots sound: a slot is vacated, occupied by
-- a new key, or given a new deadline.
use pigs.Prelude.{
  ℕ, ◌+◌, ◌-◌, ◌<◌, true, false, ◌&&◌, some, List, [], ◌∷◌, ◌==◌, if◌then◌else◌, ◌≡◌, ◌≢◌, arith,
  count, Bool-cases, inl, inr, ◌⊎◌, ap, sym, ◌∙◌, subst,
}
use pigs.Wheel.State.{Entry, Table}
use pigs.Wheel.Table.Index.{indexed}
use pigs.Wheel.Table.Sound.{live, vacant, next_of, Linked, Linked-ext, IsSound}

module _ {K : Type 0} (s t : Table K) (idx : ℕ) where
  -- `t` is `s` with the slot `idx` given back.
  pub record Vacated : Type 0 where
    pub same_len : t.len ≡ s.len
    pub head : t.free_head ≡ idx
    pub others : (i : ℕ) → i ≢ idx → t.entries i ≡ s.entries i
    pub gone : (t.entries idx).in_use ≡ false
    pub link : (t.entries idx).next_free ≡ s.free_head
    pub index :
        (h i : ℕ)
        → count i (indexed t h) ≡ (
            if (s.entries idx).hash == h
            then (if idx == i then count i (indexed s h) - 1 else count i (indexed s h))
            else count i (indexed s h))

  -- `t` is `s` with the first free slot, `idx`, holding `key`.
  pub record Occupied (hash : K → ℕ) (key : K) : Type 0 where
    pub same_len : t.len ≡ s.len
    pub head : s.free_head ≡ idx
    pub within : idx < s.len
    pub next : t.free_head ≡ (s.entries idx).next_free
    pub others : (i : ℕ) → i ≢ idx → t.entries i ≡ s.entries i
    pub taken : (t.entries idx).in_use ≡ true
    pub has_key : (t.entries idx).key ≡ some key
    pub has_hash : (t.entries idx).hash ≡ hash key
    pub index :
        (h i : ℕ)
        → count i (indexed t h)
          ≡ count i (indexed s h) + (if hash key == h then (if idx == i then 1 else 0) else 0)

module _ {K : Type 0} (hash : K → ℕ) (s t : Table K) (idx : ℕ) (sound : IsSound hash s) where
  module _ (was : live s idx ≡ true) (v : Vacated s t idx) where
    live-Vacated : (i : ℕ) → live t i ≡ (if idx == i then false else live s i)
    live-Vacated i = elim (Bool-cases (idx == i)) [
      | inl e ↦
          let here : idx ≡ i = ground arith in ground (arith, v.gone, v.same_len, ap t.entries here)
      | inr e ↦ ground (arith, v.others i (ground arith), v.same_len)
    ]

    Linked-Vacated : Linked (next_of t.entries) t.len t.free_head (idx ∷ sound.free_list)
    Linked-Vacated = (
      v.head,
      ground (arith, v.same_len),
      Linked-ext (next_of s.entries) (next_of t.entries) s.len t.len s.free_head _ sound.free_list
          v.same_len v.link
          (λ i c.
            ap (λ (e : Entry K). e.next_free)
              (v.others i (λ e. ground (arith, sound.free_exact i, ap s.entries e))))
          sound.linked,
    )

    free_exact-Vacated : (i : ℕ) → count i (idx ∷ sound.free_list) ≡ (if vacant t i then 1 else 0)
    free_exact-Vacated i = elim (Bool-cases (idx == i)) [
      | inl e ↦
          let here : idx ≡ i = ground arith in
          ground
            (arith, v.gone, v.same_len, ap t.entries here, ap s.entries here, sound.free_exact i)
      | inr e ↦ ground (arith, v.others i (ground arith), v.same_len, sound.free_exact i)
    ]

    index_exact-Vacated :
        (h i : ℕ) → count i (indexed t h) ≡ (if live t i && (t.entries i).hash == h then 1 else 0)
    index_exact-Vacated h i = elim (Bool-cases (idx == i)) [
      | inl e ↦
          let here : idx ≡ i = ground arith in
          ground (
            arith,
            v.index h i,
            live-Vacated i,
            ap t.entries here,
            ap s.entries here,
            sound.index_exact h i,
          )
      | inr e ↦
          ground
            (arith, v.index h i, v.others i (ground arith), live-Vacated i, sound.index_exact h i)
    ]

    -- What is live after a slot was given back was live before, and is unchanged.
    pub live_of-Vacated :
        (i : ℕ) → live t i ≡ true → (live s i ≡ true) × (i ≢ idx) × (t.entries i ≡ s.entries i)
    live_of-Vacated i alive =
        let other : i ≢ idx = λ e. ground (arith, live-Vacated i) in
        (ground (arith, live-Vacated i), other, v.others i other)

    pub Vacated-IsSound : IsSound hash t
    Vacated-IsSound = record {
      free_list = idx ∷ sound.free_list;
      linked = Linked-Vacated;
      free_exact = free_exact-Vacated;
      index_exact = index_exact-Vacated;
      keyed = λ i alive.
          let (before, _, same) = live_of-Vacated i alive in rw same (sound.keyed i before);
      unique = λ i j a b e.
          let (before, _, same) = live_of-Vacated i a in
          let (before', _, same') = live_of-Vacated j b in
          sound.unique i j before before' (ground (arith, same, same'));
    }

  module _ (key : K) (v : Occupied s t idx hash key)
      (fresh : (i : ℕ) → live s i ≡ true → (s.entries i).key ≢ some key) where
    -- The free list had `idx` in front.
    free_list-Occupied : (rest : List ℕ) × (sound.free_list ≡ idx ∷ rest)
    free_list-Occupied = split sound.free_list sound.linked
      where
        split :
            (l : List ℕ)
            → Linked (next_of s.entries) s.len s.free_head l
            → (rest : List ℕ) × (l ≡ idx ∷ rest)
        split [] h = absurd (omega (arith, v.within, v.head))
        split (x ∷ rest) h = (rest, ground (arith, v.head))

    pub was_vacant : live s idx ≡ false
    was_vacant =
        let (rest, e) = free_list-Occupied in ground (arith, sound.free_exact idx, ap (count idx) e)

    live-Occupied : (i : ℕ) → live t i ≡ (if idx == i then true else live s i)
    live-Occupied i = elim (Bool-cases (idx == i)) [
      | inl e ↦
          let here : idx ≡ i = ground arith in
          ground (arith, v.taken, v.within, v.same_len, ap t.entries here)
      | inr e ↦ ground (arith, v.others i (ground arith), v.same_len)
    ]

    index_exact-Occupied :
        (h i : ℕ) → count i (indexed t h) ≡ (if live t i && (t.entries i).hash == h then 1 else 0)
    index_exact-Occupied h i = elim (Bool-cases (idx == i)) [
      | inl e ↦
          let here : idx ≡ i = ground arith in
          ground (
            arith,
            v.index h i,
            live-Occupied i,
            ap t.entries here,
            ap s.entries here,
            v.has_hash,
            was_vacant,
            sound.index_exact h idx,
            sound.index_exact h i,
          )
      | inr e ↦
          ground
            (arith, v.index h i, v.others i (ground arith), live-Occupied i, sound.index_exact h i)
    ]

    free_exact-Occupied :
        (rest : List ℕ)
        → sound.free_list ≡ idx ∷ rest
        → (i : ℕ) → count i rest ≡ (if vacant t i then 1 else 0)
    free_exact-Occupied rest l i = elim (Bool-cases (idx == i)) [
      | inl e ↦
          let here : idx ≡ i = ground arith in
          ground (
            arith,
            v.taken,
            v.same_len,
            v.within,
            was_vacant,
            ap t.entries here,
            ap s.entries here,
            sound.free_exact i,
            ap (count i) l,
          )
      | inr e ↦
          ground (arith, v.others i (ground arith), v.same_len, sound.free_exact i, ap (count i) l)
    ]

    -- A live slot is the new one or was live before, unchanged.
    pub live_of-Occupied :
        (i : ℕ)
        → live t i ≡ true
        → (i ≡ idx) ⊎ ((live s i ≡ true) × (i ≢ idx) × (t.entries i ≡ s.entries i))
    live_of-Occupied i alive = elim (Bool-cases (idx == i)) [
      | inl e ↦ inl (ground arith)
      | inr e ↦ inr (ground (arith, live-Occupied i), ground arith, v.others i (ground arith))
    ]

    Linked-Occupied :
        (rest : List ℕ)
        → sound.free_list ≡ idx ∷ rest
        → Linked (next_of t.entries) t.len t.free_head rest
    Linked-Occupied rest l =
        let links : Linked (next_of s.entries) s.len s.free_head (idx ∷ rest) =
          subst (Linked (next_of s.entries) s.len s.free_head) l sound.linked in
        Linked-ext (next_of s.entries) (next_of t.entries) s.len t.len (s.entries idx).next_free
          t.free_head rest v.same_len v.next
          (λ i c.
            ap (λ (e : Entry K). e.next_free)
              (v.others i
                (λ e. ground (arith, free_exact-Occupied rest l i, v.taken, ap t.entries e))))
          links.2

    keyed-Occupied :
        (i : ℕ)
        → live t i ≡ true
        → (k : K) × ((t.entries i).key ≡ some k) × ((t.entries i).hash ≡ hash k)
    keyed-Occupied i alive = elim (live_of-Occupied i alive) [
      | inl e ↦ rw e (key, v.has_key, v.has_hash)
      | inr (before, _, same) ↦ rw same (sound.keyed i before)
    ]

    unique-Occupied :
        (i j : ℕ)
        → live t i ≡ true
        → live t j ≡ true
        → (t.entries i).key ≡ (t.entries j).key
        → i ≡ j
    unique-Occupied i j a b e = elim (live_of-Occupied i a) [
      | inl here ↦ elim (live_of-Occupied j b) [
        | inl here' ↦ here ∙ sym here'
        | inr (before, _, same) ↦
            absurd (fresh j before (ground (arith, v.has_key, ap t.entries here)))
      ]
      | inr (before, _, same) ↦ elim (live_of-Occupied j b) [
        | inl here' ↦ absurd (fresh i before (ground (arith, v.has_key, ap t.entries here')))
        | inr (before', _, same') ↦ sound.unique i j before before' (ground arith)
      ]
    ]

    pub Occupied-IsSound : IsSound hash t
    Occupied-IsSound =
        let (rest, l) = free_list-Occupied in
        record {
          free_list = rest;
          linked = Linked-Occupied rest l;
          free_exact = free_exact-Occupied rest l;
          index_exact = index_exact-Occupied;
          keyed = keyed-Occupied;
          unique = unique-Occupied;
        }
