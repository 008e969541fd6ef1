-- ===== src/Wheel/Table/Sound.antt =====
-- base/src/cache/c100k.rs: what holds of the slots between two commands, and that the slot
-- operations keep it.
use pigs.Prelude.{
  ℕ, ◌≤◌, ◌<◌, Bool, true, not, ◌&&◌, some, List, [], ◌∷◌, ltb, ◌==◌, if◌then◌else◌, ◌≡◌, arith,
  count,
}
use pigs.Wheel.State.{Entry, Table}
use pigs.Wheel.Table.Index.{indexed}

-- The free list: the indices met from `head` on, each below `len`, up to one that is not.
abbrev pub Linked : (ℕ → ℕ) → ℕ → ℕ → List ℕ → Type 0
Linked next len head [] = len ≤ head
Linked next len head (x ∷ xs) = (head ≡ x) × (x < len) × Linked next len (next x) xs

abbrev pub next_of : {K : Type 0} → (ℕ → Entry K) → ℕ → ℕ
next_of entries i = (entries i).next_free

-- Only the links of the listed slots matter.
pub Linked-ext :
    (next next' : ℕ → ℕ) (len len' head head' : ℕ) (xs : List ℕ)
    → len' ≡ len
    → head' ≡ head
    → ((i : ℕ) → 0 < count i xs → next' i ≡ next i)
    → Linked next len head xs
    → Linked next' len' head' xs
Linked-ext next next' len len' head head' [] p q same l = omega arith
Linked-ext next next' len len' head head' (x ∷ xs) p q same l = (
  omega arith,
  omega arith,
  Linked-ext next next' len len' (next x) (next' x) xs p (same x (ground arith))
      (λ i c. same i (omega arith)) l.2,
)

module _ {K : Type 0} where
  abbrev pub live : Table K → ℕ → Bool
  live s i = ltb i s.len && (s.entries i).in_use

  abbrev pub vacant : Table K → ℕ → Bool
  vacant s i = ltb i s.len && not (s.entries i).in_use

-- The free list holds each vacant slot once; the index holds each live slot once, under the hash of
-- its key; a live slot has a key, and no two live slots have the same.
pub record IsSound {K : Type 0} (hash : K → ℕ) (s : Table K) : Type 0 where
  pub free_list : List ℕ
  pub linked : Linked (next_of s.entries) s.len s.free_head free_list
  pub free_exact : (i : ℕ) → count i free_list ≡ (if vacant s i then 1 else 0)
  pub index_exact :
      (h i : ℕ) → count i (indexed s h) ≡ (if live s i && (s.entries i).hash == h then 1 else 0)
  pub keyed :
      (i : ℕ)
      → live s i ≡ true
      → (k : K) × ((s.entries i).key ≡ some k) × ((s.entries i).hash ≡ hash k)
  pub unique :
      (i j : ℕ) → live s i ≡ true → live s j ≡ true → (s.entries i).key ≡ (s.entries j).key → i ≡ j
