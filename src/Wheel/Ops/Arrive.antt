-- ===== src/Wheel/Ops/Arrive.antt =====
-- base/src/cache/c100k.rs: what a new tick finds of a waiting reference, before and during its
-- cascades and in the bucket that it processes.
use pigs.Prelude.{
  ℕ, ◌+◌, ◌*◌, ◌/◌, ◌%◌, ◌≤◌, Bool, true, false, List, [], ◌∷◌, ◌==◌, update, ◌≡◌, ◌≢◌, arith, inl,
  inr, ◌⊎◌, ap, sym, subst,
}
use native.Mathlib.Decide.{dec_lt, ℕ_discrete}
use pigs.Wheel.State.{wheel_l1_len, wheel_l2_len, wheel_l3_len, Wheel, Wheels}
use pigs.Wheel.Ops.{place}
use pigs.Wheel.Ops.Due.{
  Held, Waiting, in_l1, in_l2, in_l3, Waiting-place, Waiting-place_self, l1-place, l3-place,
}

-- During the cascades of `tick`: the reference is in the bucket that `tick` processes, or the
-- deadline has not passed and it waits, or is in the rest `pending` of a bucket that cascades, or
-- is in the bucket of the third wheel that cascades next.
pub data Due (w : Wheels) (tick i v x : ℕ) (pending : List (ℕ × ℕ)) (next : Bool) : Type 0 where
  now : Held i v (w.wheel_l1 (tick % wheel_l1_len)) → Due w tick i v x pending next
  later : tick ≤ x → Waiting w tick i v x → Due w tick i v x pending next
  cascades : tick ≤ x → Held i v pending → Due w tick i v x pending next
  coarse :
      tick ≤ x
      → next ≡ true
      → Held i v (w.wheel_l3 ((tick / (wheel_l1_len * wheel_l2_len)) % wheel_l3_len))
      → Due w tick i v x pending next

Held-clear :
    (i v : ℕ) (w : Wheel) (slot k : ℕ) → slot ≢ k → Held i v (w k) → Held i v (update w slot [] k)
Held-clear i v w slot k ne h = let e : (slot == k) ≡ false = ground arith in rw e h

-- A tick inside a block of the second wheel makes no cascade.
pub arrive_inside :
    (w : Wheels) (t i v x : ℕ)
    → (t + 1) % wheel_l1_len ≢ 0
    → Waiting w t i v x
    → Due w (t + 1) i v x [] false
arrive_inside w t i v x ne (in_l1 d a b h) =
    elim (ℕ_discrete (d % wheel_l1_len) ((t + 1) % wheel_l1_len)) [
      | yes e ↦ now (subst (λ k. Held i v (w.wheel_l1 k)) e h)
      | no other ↦
          let d_ne : d ≢ t + 1 = λ e. other (ap (λ k. k % wheel_l1_len) e) in
          later (omega arith) (in_l1 d (omega arith) (inl (omega arith)) h)
    ]
arrive_inside w t i v x ne (in_l2 b a c h) = later (omega arith) (in_l2 b (omega arith) c h)
arrive_inside w t i v x ne (in_l3 b a c h) = later (omega arith) (in_l3 b (omega arith) c h)

-- A tick at the start of a block takes that block's bucket, and, at the start of a block of the
-- third wheel, that one's next.
pub arrive_block :
    (w : Wheels) (t i v x : ℕ)
    → (t + 1) % wheel_l1_len ≡ 0
    → Waiting w t i v x
    → Due
        (record w { wheel_l2 = update w.wheel_l2 (((t + 1) / wheel_l1_len) % wheel_l2_len) [] })
        (t + 1)
        i
        v
        x
        (w.wheel_l2 (((t + 1) / wheel_l1_len) % wheel_l2_len))
        (((t + 1) / wheel_l1_len) % wheel_l2_len == 0)
arrive_block w t i v x z (in_l1 d a b h) =
    elim (ℕ_discrete (d % wheel_l1_len) ((t + 1) % wheel_l1_len)) [
      | yes e ↦ now (subst (λ k. Held i v (w.wheel_l1 k)) e h)
      | no other ↦
          let d_ne : d ≢ t + 1 = λ e. other (ap (λ k. k % wheel_l1_len) e) in
          later (omega arith) (in_l1 d (omega arith) (inl (omega arith)) h)
    ]
arrive_block w t i v x z (in_l2 b a c h) =
    elim (ℕ_discrete (b % wheel_l2_len) (((t + 1) / wheel_l1_len) % wheel_l2_len)) [
      | yes e ↦ cascades (omega arith) (subst (λ k. Held i v (w.wheel_l2 k)) e h)
      | no other ↦
          let b_ne : b ≢ (t + 1) / wheel_l1_len = λ e. other (ap (λ k. k % wheel_l2_len) e) in
          later (omega arith) (
            in_l2 b (omega arith) c
              (Held-clear i v w.wheel_l2 _ (b % wheel_l2_len) (λ e. other (sym e)) h))
    ]
arrive_block w t i v x z (in_l3 b a c h) =
    elim (dec_lt (t + 1) (b * (wheel_l1_len * wheel_l2_len))) [
      | yes far ↦ later (omega arith) (in_l3 b far c h)
      | no here ↦
          let e : b ≡ (t + 1) / (wheel_l1_len * wheel_l2_len) = omega arith in
          let first : ((t + 1) / wheel_l1_len) % wheel_l2_len ≡ 0 = omega arith in
          coarse (omega arith) (ground arith)
            (subst (λ k. Held i v (w.wheel_l3 (k % wheel_l3_len))) e h)
    ]

-- The cascade of the third wheel takes its bucket.
pub arrive_coarse :
    (w : Wheels) (tick i v x : ℕ)
    → tick % (wheel_l1_len * wheel_l2_len) ≡ 0
    → Due w tick i v x [] true
    → let slot = (tick / (wheel_l1_len * wheel_l2_len)) % wheel_l3_len in
      Due (record w { wheel_l3 = update w.wheel_l3 slot [] }) tick i v x (w.wheel_l3 slot) false
arrive_coarse w tick i v x z (now h) = now h
arrive_coarse w tick i v x z (later le (in_l1 d a b h)) = later le (in_l1 d a b h)
arrive_coarse w tick i v x z (later le (in_l2 b a c h)) = later le (in_l2 b a c h)
arrive_coarse w tick i v x z (later le (in_l3 b a c h)) =
    elim (ℕ_discrete (b % wheel_l3_len) ((tick / (wheel_l1_len * wheel_l2_len)) % wheel_l3_len)) [
      | yes e ↦ cascades le (subst (λ k. Held i v (w.wheel_l3 k)) e h)
      | no other ↦
          later le
            (in_l3 b a c (Held-clear i v w.wheel_l3 _ (b % wheel_l3_len) (λ e. other (sym e)) h))
    ]
arrive_coarse w tick i v x z (cascades le h) = absurd h
arrive_coarse w tick i v x z (coarse le e h) = cascades le h

module _ (w : Wheels) (tick i v x : ℕ) (pending : List (ℕ × ℕ)) (next : Bool) where
  pub Due-place :
      (item : ℕ × ℕ) (y : ℕ)
      → Due w tick i v x pending next
      → Due (place w tick item y) tick i v x pending next
  Due-place item y (now h) = now (l1-place w tick item y i v _ h)
  Due-place item y (later le h) = later le (Waiting-place w tick item y i v x h)
  Due-place item y (cascades le h) = cascades le h
  Due-place item y (coarse le e h) = coarse le e (l3-place w tick item y i v _ h)

  -- The head of the pending bucket is another reference, or is scheduled.
  pub Due-skip :
      (p : ℕ × ℕ)
      → ¬ ((p.0 ≡ i) × (p.1 ≡ v))
      → Due w tick i v x (p ∷ pending) next
      → Due w tick i v x pending next
  Due-skip p ne (now h) = now h
  Due-skip p ne (later le h) = later le h
  Due-skip p ne (cascades le (inl e)) = absurd (ne e)
  Due-skip p ne (cascades le (inr h)) = cascades le h
  Due-skip p ne (coarse le e h) = coarse le e h

  pub Due-take :
      (p : ℕ × ℕ)
      → Due w tick i v x (p ∷ pending) next
      → Due (place w tick (i, v) x) tick i v x pending next
  Due-take p (now h) = now (l1-place w tick (i, v) x i v _ h)
  Due-take p (later le h) = later le (Waiting-place w tick (i, v) x i v x h)
  Due-take p (cascades le h) = later le (Waiting-place_self w tick i v x)
  Due-take p (coarse le e h) = coarse le e (l3-place w tick (i, v) x i v _ h)

-- When the cascades are done, the reference is in the bucket that the tick takes, or it still
-- waits and its deadline has not passed.
pub Due-bucket :
    (w : Wheels) (tick i v x : ℕ)
    → Due w tick i v x [] false
    → let slot = tick % wheel_l1_len in
      ((tick ≤ x) × Waiting (record w { wheel_l1 = update w.wheel_l1 slot [] }) tick i v x)
      ⊎ Held i v (w.wheel_l1 slot)
Due-bucket w tick i v x (now h) = inr h
Due-bucket w tick i v x (later le (in_l1 d a b h)) =
    elim (ℕ_discrete (d % wheel_l1_len) (tick % wheel_l1_len)) [
      | yes e ↦ inr (subst (λ k. Held i v (w.wheel_l1 k)) e h)
      | no other ↦
          inl (
            le,
            in_l1 d a b (Held-clear i v w.wheel_l1 _ (d % wheel_l1_len) (λ e. other (sym e)) h),
          )
    ]
Due-bucket w tick i v x (later le (in_l2 b a c h)) = inl (le, in_l2 b a c h)
Due-bucket w tick i v x (later le (in_l3 b a c h)) = inl (le, in_l3 b a c h)
Due-bucket w tick i v x (cascades le h) = absurd h
Due-bucket w tick i v x (coarse le e h) = absurd (ground (arith, e))
