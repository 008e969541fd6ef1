-- ===== src/Wheel/Table/Index.antt =====
-- base/src/cache/c100k.rs: the hash index, read as the list of indices under a hash.
use pigs.Prelude.{
  ℕ, ◌+◌, ◌-◌, none, some, List, [], ◌∷◌, ◌==◌, if◌then◌else◌, ◌≡◌, refl, arith, count,
  count-append,
}
use pigs.Wheel.State.{Table}
use pigs.Wheel.Table.{move_last, swap_remove, insert_index, remove_index}

abbrev pub indexed : {K : Type 0} → Table K → ℕ → List ℕ
indexed s h = elim (s.index_map h) [ none ↦ [] | some v ↦ v ]

-- The step of `move_last`, named.
count-rotate :
    (i x : ℕ) (l : List ℕ)
    → count i (elim l [ [] ↦ x ∷ [] | z ∷ zs ↦ z ∷ x ∷ zs ]) ≡ count i (x ∷ l)
count-rotate i x [] = refl
count-rotate i x (z ∷ zs) = omega arith

count-move_last : (i : ℕ) (v : List ℕ) → count i (move_last v) ≡ count i v
unfolding move_last
count-move_last i [] = refl
count-move_last i (x ∷ []) = refl
count-move_last i (x ∷ y ∷ xs) =
    omega (arith, count-rotate i x (move_last (y ∷ xs)), count-move_last i (y ∷ xs))

-- `swap_remove` takes out one occurrence of `idx`, and nothing else.
pub count-swap_remove :
    (i idx : ℕ) (v : List ℕ)
    → count i (swap_remove v idx) ≡ (if idx == i then count i v - 1 else count i v)
unfolding swap_remove
count-swap_remove i idx [] = ground arith
count-swap_remove i idx (x ∷ xs) = ground (arith, count-move_last i xs, count-swap_remove i idx xs)

module _ {K : Type 0} (s : Table K) (h idx g i : ℕ) where
  pub count-insert_index :
      count i (indexed (insert_index s h idx) g)
      ≡ count i (indexed s g) + (if h == g then (if idx == i then 1 else 0) else 0)
  unfolding insert_index
  count-insert_index = ground (arith, count-append i (idx ∷ []) (indexed s h))

  pub count-remove_index : count i (indexed (remove_index s h idx) g) ≡ (
      if h == g
      then (if idx == i then count i (indexed s g) - 1 else count i (indexed s g))
      else count i (indexed s g))
  unfolding remove_index
  count-remove_index = ground (arith, count-swap_remove i idx (indexed s h))
