-- ===== src/Runtime/Stages.antt =====
-- base/src/utils/rt.rs: the order in which the shutdown takes the runtimes.
use pigs.Prelude.{
  ℕ, ◌≤◌, Bool, false, not, ◌&&◌, ◌||◌, List, [], ◌∷◌, ◌++◌, ltb, ◌==◌, if◌then◌else◌, retain,
  count, count-append, ◌≡◌, refl, arith, Bool-cases, inl, inr,
}

-- Runtime types are numbers, with 0 for `Main`.
abbrev pub main : ℕ
main = 0

unfoldable pub contains : List ℕ → ℕ → Bool
contains [] k = false
contains (x ∷ xs) k = (x == k) || contains xs k

unfoldable pub push_new : List ℕ → ℕ → List ℕ
push_new ordered x = if contains ordered x then ordered else ordered ++ x ∷ []

unfoldable pub push_orders : List ℕ → List ℕ → List ℕ
push_orders ordered [] = ordered
push_orders ordered (x ∷ orders) =
    push_orders (if x == main then ordered else push_new ordered x) orders

unfoldable pub push_remaining : List ℕ → List ℕ → List ℕ
push_remaining ordered [] = ordered
push_remaining ordered (x ∷ remaining) = push_remaining (push_new ordered x) remaining

-- The keys of the registry without `Main`.
unfoldable pub runtime_types : List ℕ → List ℕ
runtime_types keys = retain (λ k. not (k == main)) keys

-- `sort` is `sort_by_key` of the standard library, by the threads' names.
unfoldable pub stages : (List ℕ → List ℕ) → List ℕ → List ℕ → List ℕ
stages sort orders keys = push_remaining (push_orders [] orders) (sort (runtime_types keys))

pub contains-count : (xs : List ℕ) (k : ℕ) → contains xs k ≡ ltb 0 (count k xs)
unfolding contains
contains-count [] k = refl
contains-count (x ∷ xs) k = ground (arith, contains-count xs k)

count-push_new :
    (ordered : List ℕ) (x k : ℕ)
    → count k ordered ≤ 1
    → count k (push_new ordered x) ≡ (if (x == k) || ltb 0 (count k ordered) then 1 else 0)
unfolding push_new
count-push_new ordered x k h =
    ground (arith, contains-count ordered x, count-append k (x ∷ []) ordered)

count-push_remaining :
    (ordered xs : List ℕ) (k : ℕ)
    → count k ordered ≤ 1
    → count k (push_remaining ordered xs)
      ≡ (if ltb 0 (count k xs) || ltb 0 (count k ordered) then 1 else 0)
unfolding push_remaining
count-push_remaining ordered [] k h = ground arith
count-push_remaining ordered (x ∷ xs) k h =
    let one = count-push_new ordered x k h in
    ground (arith, count-push_remaining (push_new ordered x) xs k (ground arith), one)

count-push_orders :
    (ordered xs : List ℕ) (k : ℕ)
    → count k ordered ≤ 1
    → count k (push_orders ordered xs)
      ≡ (if (not (k == main) && ltb 0 (count k xs)) || ltb 0 (count k ordered) then 1 else 0)
unfolding push_orders
count-push_orders ordered [] k h = ground arith
count-push_orders ordered (x ∷ xs) k h = elim (Bool-cases (x == main)) [
  | inl is_main ↦ rw is_main (ground (arith, count-push_orders ordered xs k h))
  | inr other ↦
      let one = count-push_new ordered x k h in
      rw other (ground (arith, count-push_orders (push_new ordered x) xs k (ground arith), one))
]

count-runtime_types :
    (keys : List ℕ) (k : ℕ) → count k (runtime_types keys) ≡ (if k == main then 0 else count k keys)
unfolding runtime_types
count-runtime_types [] k = ground arith
count-runtime_types (x ∷ keys) k = ground (arith, count-runtime_types keys k)

-- If the sort keeps how often each runtime stands in a list, a runtime other than the main one has
-- exactly one stage of the shutdown when the caller orders it or it is registered, and no stage
-- otherwise; the main runtime has none, whatever the caller orders.
pub stages-once :
    (sort : List ℕ → List ℕ)
    → ((k : ℕ) (xs : List ℕ) → count k (sort xs) ≡ count k xs)
    → (orders keys : List ℕ) (k : ℕ)
    → count k (stages sort orders keys)
      ≡ (if not (k == main) && (ltb 0 (count k orders) || ltb 0 (count k keys)) then 1 else 0)
unfolding stages
stages-once sort keeps orders keys k =
    let first = count-push_orders [] orders k (ground arith) in
    let sorted = keeps k (runtime_types keys) in
    let types = count-runtime_types keys k in
    ground (
      arith,
      count-push_remaining (push_orders [] orders) (sort (runtime_types keys)) k (ground arith),
    )
