-- ===== src/Wheel/Table/Find.antt =====
-- base/src/cache/c100k.rs: what `find_entry` returns.
use pigs.Prelude.{
  ℕ, ◌<◌, true, Option, none, some, List, [], ◌∷◌, ◌≡◌, ◌≢◌, arith, count, Returns, Returns-mono,
  ap,
}
use pigs.Wheel.State.{Table}
use pigs.Wheel.Table.{find_in, find_entry}
use pigs.Wheel.Table.Index.{indexed}
use pigs.Wheel.Table.Sound.{live, IsSound}

module _ {K : Type 0} (hash : K → ℕ) (dec : Discrete K) (s : Table K) (sound : IsSound hash s) where
  -- What a search for `key` in a list of live slots finds.
  abbrev FindsIn : K → List ℕ → Option ℕ → Type 0
  FindsIn key list none = (i : ℕ) → 0 < count i list → (s.entries i).key ≢ some key
  FindsIn key list (some i) = (live s i ≡ true) × ((s.entries i).key ≡ some key)

  FindsIn-miss :
      (key : K) (idx : ℕ) (list : List ℕ)
      → (s.entries idx).key ≢ some key
      → (r : Option ℕ) → FindsIn key list r
      → FindsIn key (idx ∷ list) r
  FindsIn-miss key idx list miss none h = λ i c. ground (arith, h i)
  FindsIn-miss key idx list miss (some i) h = h

  find_in-Finds :
      (key : K) (list : List ℕ)
      → ((i : ℕ) → 0 < count i list → live s i ≡ true)
      → Returns (find_in dec s key list) (FindsIn key list)
  unfolding find_in
  find_in-Finds key [] all = λ i c. absurd (omega arith)
  find_in-Finds key (idx ∷ list) all =
      let alive : live s idx ≡ true = all idx (ground arith) in
      let (k, written, _) = sound.keyed idx alive in
      let rest = find_in-Finds key list (λ i c. all i (omega arith)) in
      elim (dec k key) [
        | yes e ↦ ground (arith, written)
        | no ne ↦ ground (
          arith,
          written,
          Returns-mono (FindsIn key list) (FindsIn key (idx ∷ list)) (find_in dec s key list)
              (FindsIn-miss key idx list (ground arith)) rest,
        )
      ]

  -- What a search for `key` finds: the live slot with that key, or that there is none.
  abbrev pub Finds : K → Option ℕ → Type 0
  Finds key none = (i : ℕ) → live s i ≡ true → (s.entries i).key ≢ some key
  Finds key (some i) = (live s i ≡ true) × ((s.entries i).key ≡ some key)

  -- A live slot stands in the list of its key's hash.
  pub count-indexed_of_live :
      (key : K) (i : ℕ)
      → live s i ≡ true
      → (s.entries i).key ≡ some key
      → count i (indexed s (hash key)) ≡ 1
  count-indexed_of_live key i alive here =
      let (k, written, h) = sound.keyed i alive in
      let same : k ≡ key = cc in ground (arith, sound.index_exact (hash key) i, ap hash same)

  live_of_count : (h i : ℕ) → 0 < count i (indexed s h) → live s i ≡ true
  live_of_count h i c = ground (arith, sound.index_exact h i)

  Finds-of_FindsIn : (key : K) (r : Option ℕ) → FindsIn key (indexed s (hash key)) r → Finds key r
  Finds-of_FindsIn key none f =
      λ i alive here. f i (omega (arith, count-indexed_of_live key i alive here)) here
  Finds-of_FindsIn key (some i) f = f

  -- The list that `find_entry` walks, empty where the map has none.
  find_entry-find_in : (key : K) (h : ℕ) → find_entry dec s key h ≡ find_in dec s key (indexed s h)
  unfolding find_entry find_in
  find_entry-find_in key h = ground arith

  -- On sound slots the search never panics, and it finds the key exactly if a live slot has it.
  pub find_entry-Finds : (key : K) → Returns (find_entry dec s key (hash key)) (Finds key)
  find_entry-Finds key = rw (find_entry-find_in key (hash key)) (
      Returns-mono (FindsIn key (indexed s (hash key))) (Finds key) _ (Finds-of_FindsIn key)
        (find_in-Finds key (indexed s (hash key)) (live_of_count (hash key))))
