-- ===== src/Prelude/Maps.antt =====
-- Arrays and maps read as functions, and the fault monad: `none` is a panic.
use Prim.Native.Nat.{ℕ}
use mathlib.Core.Option.{Option, none, some}
use mathlib.Core.Path.{◌≡◌, refl}
use mathlib.Core.Bool.{false}
use native.Mathlib.Omega.{arith}
use pigs.Prelude.Tests.{◌==◌, if◌then◌else◌}

-- `f` with the value `v` at `i`.
abbrev pub update {ℓ} : {A : Type ℓ} → (ℕ → A) → ℕ → A → ℕ → A
update f i v j = if i == j then v else f j

infixl 5 ◌>>=◌
abbrev pub ◌>>=◌ {ℓ κ} : {A : Type ℓ} {B : Type κ} → Option A → (A → Option B) → Option B
none >>= f = none
some a >>= f = f a

-- The computation does not panic, and its result has the property.
abbrev pub Returns {ℓ} : {A : Type ℓ} → Option A → (A → Type 0) → Type 0
Returns none P = ⊥
Returns (some a) P = P a

pub Returns-bind {ℓ κ} :
    {A : Type ℓ} {B : Type κ} (P : A → Type 0) (Q : B → Type 0) (m : Option A) (f : A → Option B)
    → Returns m P
    → ((a : A) → P a → Returns (f a) Q)
    → Returns (m >>= f) Q
Returns-bind P Q none f h k = absurd h
Returns-bind P Q (some a) f h k = k a h

pub Returns-mono {ℓ} :
    {A : Type ℓ} (P Q : A → Type 0) (m : Option A)
    → ((a : A) → P a → Q a)
    → Returns m P
    → Returns m Q
Returns-mono P Q none k h = absurd h
Returns-mono P Q (some a) k h = k a h

module _ {ℓ} {A : Type ℓ} where
  pub update-same : (f : ℕ → A) (i : ℕ) (v : A) → update f i v i ≡ v
  update-same f i v = ground arith

  pub update-other : (f : ℕ → A) (i j : ℕ) (v : A) → (i == j) ≡ false → update f i v j ≡ f j
  update-other f i j v h = rw h refl
