-- ===== src/Prelude/Assoc.antt =====
-- A `DashMap` as an association list with at most one entry for a key.
use Prim.Native.Nat.{ℕ}
use mathlib.Core.Path.{◌≡◌}
use mathlib.Core.List.{List, [], ◌∷◌}
use mathlib.Core.Option.{Option, none, some}
use native.Mathlib.Omega.{arith}
use pigs.Prelude.Tests.{◌==◌, if◌then◌else◌}

module _ {ℓ} {A : Type ℓ} where
  abbrev pub lookup : List (ℕ × A) → ℕ → Option A
  lookup [] k = none
  lookup (x ∷ m) k = if x.0 == k then some x.1 else lookup m k

  abbrev pub erase : List (ℕ × A) → ℕ → List (ℕ × A)
  erase [] k = []
  erase (x ∷ m) k = let rest = erase m k in if x.0 == k then rest else x ∷ rest

  abbrev pub put : List (ℕ × A) → ℕ → A → List (ℕ × A)
  put m k v = (k, v) ∷ erase m k

  pub lookup-erase :
      (m : List (ℕ × A)) (k j : ℕ) → lookup (erase m k) j ≡ (if k == j then none else lookup m j)
  lookup-erase [] k j = ground arith
  lookup-erase (x ∷ m) k j = ground (arith, lookup-erase m k j)

  pub lookup-put :
      (m : List (ℕ × A)) (k j : ℕ) (v : A)
      → lookup (put m k v) j ≡ (if k == j then some v else lookup m j)
  lookup-put m k j v = ground (arith, lookup-erase m k j)
