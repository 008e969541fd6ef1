-- ===== src/Wheel/Ops/Cascade.antt =====
-- base/src/cache/c100k.rs: the cascades change nothing but the wheels, never panic, and keep the
-- reference of every live entry due.
use pigs.Prelude.{
  ℕ, ◌+◌, ◌-◌, ◌*◌, ◌/◌, ◌%◌, ◌<◌, Bool, true, false, ◌&&◌, Option, some, List, [], ◌∷◌, ltb, leb,
  lt→ltb, ◌==◌, update, ◌≡◌, refl, arith, Bool-cases, inl, inr, ap, sym, subst, All, All-append,
  if_intro,
}
use native.Mathlib.Decide.{ℕ_discrete}
use pigs.Wheel.State.{wheel_l1_len, wheel_l2_len, wheel_l3_len, u64, Wheel, Wheels, Table, Shard}
use pigs.Wheel.Ops.{push, place, schedule, reschedule, cascade_l2, cascade_l3, cascade}
use pigs.Wheel.Ops.Due.{Waiting}
use pigs.Wheel.Ops.Arrive.{
  Due, Due-place, Due-skip, Due-take, arrive_inside, arrive_block, arrive_coarse,
}
use pigs.Wheel.Table.Sound.{live}

-- Every reference in the wheel is to a slot of the table.
abbrev pub Bounded : ℕ → Wheel → Type 0
Bounded len w = (slot : ℕ) → All (λ p. p.0 < len) (w slot)

pub Bounded-push :
    (len : ℕ) (w : Wheel) (slot i v : ℕ)
    → i < len
    → Bounded len w
    → Bounded len (push w slot (i, v))
Bounded-push len w slot i v h b k = elim (Bool-cases (slot == k)) [
  | inl e ↦ rw e (All-append (λ p. p.0 < len) (w slot) ((i, v) ∷ []) (b slot) (h, tt))
  | inr e ↦ rw e (b k)
]

pub Bounded-clear :
    (len : ℕ) (w : Wheel) (slot : ℕ) → Bounded len w → Bounded len (update w slot [])
Bounded-clear len w slot b k = elim (Bool-cases (slot == k)) [
  | inl e ↦ rw e tt
  | inr e ↦ rw e (b k)
]

pub record AllBounded (len : ℕ) (w : Wheels) : Type 0 where
  pub l1 : Bounded len w.wheel_l1
  pub l2 : Bounded len w.wheel_l2
  pub l3 : Bounded len w.wheel_l3

pub place-AllBounded :
    (len : ℕ) (w : Wheels) (tick i v x : ℕ)
    → i < len
    → AllBounded len w
    → AllBounded len (place w tick (i, v) x)
unfolding place
place-AllBounded len w tick i v x h b =
    if_intro (leb x tick) (AllBounded len) (with_l1 (u64 (tick + 1) % wheel_l1_len)) (
      if_intro (ltb (x - tick) wheel_l1_len) (AllBounded len) (with_l1 (x % wheel_l1_len)) (
        if_intro (ltb (x - tick) (wheel_l1_len * wheel_l2_len)) (AllBounded len)
          (record { l1 = b.l1; l2 = Bounded-push len w.wheel_l2 _ i v h b.l2; l3 = b.l3 })
          (record { l1 = b.l1; l2 = b.l2; l3 = Bounded-push len w.wheel_l3 _ i v h b.l3 })))
  where
    with_l1 : (slot : ℕ) → AllBounded len (record w { wheel_l1 = push w.wheel_l1 slot (i, v) })
    with_l1 slot = record { l1 = Bounded-push len w.wheel_l1 slot i v h b.l1; l2 = b.l2; l3 = b.l3 }

module _ {K : Type 0} where
  -- The references of all live entries are due, `pending` being the rest of the bucket that cascades.
  abbrev pub AllDue : Table K → Wheels → ℕ → List (ℕ × ℕ) → Bool → Type 0
  AllDue t w tick pending next =
      (i : ℕ)
      → live t i ≡ true
      → Due w tick i (t.entries i).version (t.entries i).expire_tick pending next

  -- Every live entry waits.
  abbrev pub AllWaiting : Table K → Wheels → ℕ → Type 0
  AllWaiting t w tick =
      (i : ℕ) → live t i ≡ true → Waiting w tick i (t.entries i).version (t.entries i).expire_tick

  AllDue-place :
      (t : Table K) (w : Wheels) (tick idx ver : ℕ) (pending : List (ℕ × ℕ)) (next : Bool)
      → AllDue t w tick ((idx, ver) ∷ pending) next
      → AllDue t
          (place w tick (idx, (t.entries idx).version) (t.entries idx).expire_tick)
          tick
          pending
          next
  AllDue-place t w tick idx ver pending next due i alive = elim (ℕ_discrete idx i) [
    | yes e ↦
        subst
          (λ k.
            Due (place w tick (k, (t.entries k).version) (t.entries k).expire_tick) tick i
              (t.entries i).version (t.entries i).expire_tick pending next)
          (sym e)
          (Due-take w tick i (t.entries i).version (t.entries i).expire_tick pending next (idx, ver)
            (due i alive))
    | no ne ↦
        Due-place w tick i _ _ pending next _ _
          (Due-skip w tick i _ _ pending next (idx, ver) (λ same. ne same.0) (due i alive))
  ]

module _ {K C : Type 0} where
  -- A cascade of `bucket` makes the wheels `w` out of those of `s`.
  abbrev pub Cascaded : Shard K C → Option (Shard K C) → Bool → Type 0
  Cascaded s r next =
      (w : Wheels) × (r ≡ some (record s { wheels = w }))
      × AllBounded s.len w
      × AllDue s.table w s.tick [] next

  pub reschedule-Cascaded :
      (bucket : List (ℕ × ℕ)) (s : Shard K C) (next : Bool)
      → All (λ p. p.0 < s.len) bucket
      → AllBounded s.len s.wheels
      → AllDue s.table s.wheels s.tick bucket next
      → Cascaded s (reschedule bucket s) next
  unfolding reschedule schedule
  reschedule-Cascaded [] s next bound ok due = (s.wheels, refl, ok, due)
  reschedule-Cascaded ((idx, ver) ∷ bucket) s next bound ok due =
      elim (Bool-cases ((s.entries idx).in_use && (s.entries idx).version == ver)) [
        | inl e ↦
            let w' =
              place s.wheels s.tick (idx, (s.entries idx).version) (s.entries idx).expire_tick in
            let (w, ran, ok', due') =
              reschedule-Cascaded bucket (record s { wheels = w' }) next bound.1
                (place-AllBounded s.len s.wheels s.tick idx _ _ bound.0 ok)
                (AllDue-place s.table s.wheels s.tick idx ver bucket next due) in
            (w, rw (lt→ltb idx s.len bound.0, e) ran, ok', due')
        | inr e ↦
            let (w, ran, ok', due') = reschedule-Cascaded bucket s next bound.1 ok (λ i alive.
              Due-skip s.wheels s.tick i _ _ bucket next (idx, ver)
                (λ same. ground (arith, alive, e, ap s.entries same.0)) (due i alive)) in
            (w, rw (lt→ltb idx s.len bound.0, e) ran, ok', due')
      ]

  cascade_l3-Cascaded :
      (s : Shard K C)
      → s.tick % (wheel_l1_len * wheel_l2_len) ≡ 0
      → AllBounded s.len s.wheels
      → AllDue s.table s.wheels s.tick [] true
      → Cascaded s (cascade_l3 s) false
  unfolding cascade_l3
  cascade_l3-Cascaded s z ok due =
      let slot = (s.tick / (wheel_l1_len * wheel_l2_len)) % wheel_l3_len in
      let w' = record s.wheels { wheel_l3 = update s.wheels.wheel_l3 slot [] } in
      let ok' : AllBounded s.len w' = record {
        l1 = ok.l1;
        l2 = ok.l2;
        l3 = Bounded-clear s.len s.wheel_l3 slot ok.l3;
      } in
      reschedule-Cascaded (s.wheel_l3 slot) (record s { wheels = w' }) false (ok.l3 slot) ok'
        (λ i alive. arrive_coarse s.wheels s.tick i _ _ z (due i alive))

  module _ (s : Shard K C) (ok : AllBounded s.len s.wheels)
      (waits : AllWaiting s.table s.wheels s.tick) where
    abbrev ticked : Shard K C
    ticked = record s { tick = s.tick + 1 }

    abbrev block : ℕ
    block = (ticked.tick / wheel_l1_len) % wheel_l2_len

    cascade_l2-Cascaded :
        ticked.tick % wheel_l1_len ≡ 0 → Cascaded ticked (cascade_l2 ticked) (block == 0)
    unfolding cascade_l2
    cascade_l2-Cascaded z =
        let w' = record s.wheels { wheel_l2 = update s.wheels.wheel_l2 block [] } in
        let ok' : AllBounded s.len w' = record {
          l1 = ok.l1;
          l2 = Bounded-clear s.len s.wheel_l2 block ok.l2;
          l3 = ok.l3;
        } in
        reschedule-Cascaded (s.wheel_l2 block) (record ticked { wheels = w' }) (block == 0)
          (ok.l2 block) ok' (λ i alive. arrive_block s.wheels s.tick i _ _ z (waits i alive))

    -- The cascades of a new tick never panic, change only the wheels, and leave the reference of
    -- every live entry in the bucket of this tick or waiting for a deadline that has not passed.
    pub cascade-Cascaded : Cascaded ticked (cascade ticked) false
    unfolding cascade
    cascade-Cascaded = elim (Bool-cases (ticked.tick % wheel_l1_len == 0)) [
      | inl z ↦
          let (w, ran, ok', due) = cascade_l2-Cascaded (ground arith) in
          elim (Bool-cases (block == 0)) [
            | inl first ↦
                let (w', ran', ok'', due') =
                  cascade_l3-Cascaded (record ticked { wheels = w }) (ground arith) ok'
                    (λ i alive. subst (Due w ticked.tick i _ _ []) first (due i alive)) in
                (w', rw (z, ran, first) ran', ok'', due')
            | inr inside ↦ (
              w,
              rw (z, ran, inside),
              ok',
              λ i alive. subst (Due w ticked.tick i _ _ []) inside (due i alive),
            )
          ]
      | inr inside ↦ (
        s.wheels,
        rw inside,
        ok,
        λ i alive. arrive_inside s.wheels s.tick i _ _ (ground arith) (waits i alive),
      )
    ]
