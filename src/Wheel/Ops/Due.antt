-- ===== src/Wheel/Ops/Due.antt =====
-- base/src/cache/c100k.rs: where the wheels hold the reference of an entry, and when a tick meets it.
use pigs.Prelude.{
  ℕ, ◌+◌, ◌-◌, ◌*◌, ◌/◌, ◌%◌, ◌≤◌, ◌<◌, true, false, List, [], ◌∷◌, ◌++◌, ltb, leb, ◌==◌, ◌≡◌, refl,
  arith, le→leb, Bool-cases, inl, inr, ◌⊎◌, sym, subst,
}
use native.Mathlib.Decide.{dec_le, dec_lt}
use pigs.Wheel.State.{wheel_l1_len, wheel_l2_len, wheel_l3_len, u64, Wheel, Wheels}
use pigs.Wheel.Ops.{push, place}

-- The bucket holds the reference to slot `i` at version `v`.
abbrev pub Held : ℕ → ℕ → List (ℕ × ℕ) → Type 0
Held i v [] = ⊥
Held i v (p ∷ l) = ((p.0 ≡ i) × (p.1 ≡ v)) ⊎ Held i v l

Held-append : (i v : ℕ) (l m : List (ℕ × ℕ)) → Held i v l → Held i v (l ++ m)
Held-append i v [] m h = absurd h
Held-append i v (p ∷ l) m (inl e) = inl e
Held-append i v (p ∷ l) m (inr h) = inr (Held-append i v l m h)

Held-last : (i v : ℕ) (l : List (ℕ × ℕ)) → Held i v (l ++ (i, v) ∷ [])
Held-last i v [] = inl (refl, refl)
Held-last i v (p ∷ l) = inr (Held-last i v l)

Held-push :
    (i v : ℕ) (w : Wheel) (slot slot' : ℕ) (item : ℕ × ℕ)
    → Held i v (w slot')
    → Held i v (push w slot item slot')
Held-push i v w slot slot' item h = elim (Bool-cases (slot == slot')) [
  | inl e ↦
      let same : slot ≡ slot' = ground arith in
      rw e (Held-append i v (w slot) (item ∷ []) (subst (λ k. Held i v (w k)) (sym same) h))
  | inr e ↦ rw e h
]

Held-push_self : (i v : ℕ) (w : Wheel) (slot : ℕ) → Held i v (push w slot (i, v) slot)
Held-push_self i v w slot =
    let same : (slot == slot) ≡ true = ground arith in rw same (Held-last i v (w slot))

-- A tick after `tick` and no later than one past the deadline meets the reference: on the first
-- wheel the tick `d`, on a coarser wheel the start of block `b`, which lies before the deadline.
pub data Waiting (w : Wheels) (tick i v expire_tick : ℕ) : Type 0 where
  in_l1 :
      (d : ℕ)
      → tick < d
      → (d ≤ expire_tick) ⊎ (d ≡ tick + 1)
      → Held i v (w.wheel_l1 (d % wheel_l1_len))
      → Waiting w tick i v expire_tick
  in_l2 :
      (b : ℕ)
      → tick < b * wheel_l1_len
      → b * wheel_l1_len ≤ expire_tick
      → Held i v (w.wheel_l2 (b % wheel_l2_len))
      → Waiting w tick i v expire_tick
  in_l3 :
      (b : ℕ)
      → tick < b * (wheel_l1_len * wheel_l2_len)
      → b * (wheel_l1_len * wheel_l2_len) ≤ expire_tick
      → Held i v (w.wheel_l3 (b % wheel_l3_len))
      → Waiting w tick i v expire_tick

module _ (w : Wheels) (tick : ℕ) (item : ℕ × ℕ) (x : ℕ) where
  pub l1-place :
      (i v slot : ℕ) → Held i v (w.wheel_l1 slot) → Held i v ((place w tick item x).wheel_l1 slot)
  unfolding place
  l1-place i v slot h =
      let a = Held-push i v w.wheel_l1 (u64 (tick + 1) % wheel_l1_len) slot item h in
      let b = Held-push i v w.wheel_l1 (x % wheel_l1_len) slot item h in ground (arith, a, b)

  pub l2-place :
      (i v slot : ℕ) → Held i v (w.wheel_l2 slot) → Held i v ((place w tick item x).wheel_l2 slot)
  unfolding place
  l2-place i v slot h =
      let a = Held-push i v w.wheel_l2 ((x / wheel_l1_len) % wheel_l2_len) slot item h in
      ground (arith, a)

  pub l3-place :
      (i v slot : ℕ) → Held i v (w.wheel_l3 slot) → Held i v ((place w tick item x).wheel_l3 slot)
  unfolding place
  l3-place i v slot h =
      let a =
        Held-push i v w.wheel_l3 ((x / (wheel_l1_len * wheel_l2_len)) % wheel_l3_len) slot item h in
      ground (arith, a)

  -- Scheduling one entry leaves every other reference where it is.
  pub Waiting-place : (i v y : ℕ) → Waiting w tick i v y → Waiting (place w tick item x) tick i v y
  Waiting-place i v y (in_l1 d a b h) = in_l1 d a b (l1-place i v (d % wheel_l1_len) h)
  Waiting-place i v y (in_l2 b a c h) = in_l2 b a c (l2-place i v (b % wheel_l2_len) h)
  Waiting-place i v y (in_l3 b a c h) = in_l3 b a c (l3-place i v (b % wheel_l3_len) h)

-- A scheduled entry waits for its deadline, whichever wheel it goes to.
pub Waiting-place_self : (w : Wheels) (tick i v x : ℕ) → Waiting (place w tick (i, v) x) tick i v x
unfolding place
Waiting-place_self w tick i v x = elim (dec_le x tick) [
  | yes late ↦ rw (le→leb x tick late) (
      in_l1 (tick + 1) (omega arith) (inr refl) (
        subst (λ k. Held i v (push w.wheel_l1 k (i, v) ((tick + 1) % wheel_l1_len))) (omega arith)
          (Held-push_self i v w.wheel_l1 ((tick + 1) % wheel_l1_len))))
  | no early ↦ elim (dec_lt (x - tick) wheel_l1_len) [
    | yes near ↦
        let e1 : leb x tick ≡ false = ground arith in
        let e2 : ltb (x - tick) wheel_l1_len ≡ true = ground arith in
        rw (e1, e2)
          (in_l1 x (omega arith) (inl (omega arith))
            (Held-push_self i v w.wheel_l1 (x % wheel_l1_len)))
    | no far ↦ elim (dec_lt (x - tick) (wheel_l1_len * wheel_l2_len)) [
      | yes near ↦
          let e1 : leb x tick ≡ false = ground arith in
          let e2 : ltb (x - tick) wheel_l1_len ≡ false = ground arith in
          let e3 : ltb (x - tick) (wheel_l1_len * wheel_l2_len) ≡ true = ground arith in
          rw (e1, e2, e3)
            (in_l2 (x / wheel_l1_len) (omega arith) (omega arith)
              (Held-push_self i v w.wheel_l2 ((x / wheel_l1_len) % wheel_l2_len)))
      | no farther ↦
          let e1 : leb x tick ≡ false = ground arith in
          let e2 : ltb (x - tick) wheel_l1_len ≡ false = ground arith in
          let e3 : ltb (x - tick) (wheel_l1_len * wheel_l2_len) ≡ false = ground arith in
          rw (e1, e2, e3)
            (in_l3 (x / (wheel_l1_len * wheel_l2_len)) (omega arith) (omega arith)
              (Held-push_self i v w.wheel_l3 ((x / (wheel_l1_len * wheel_l2_len)) % wheel_l3_len)))
    ]
  ]
]
