-- ===== src/Wheel/Run/Expiry.antt =====
-- base/src/cache/c100k.rs: the bucket of a tick is processed without a panic: what has expired is
-- taken out, the rest waits again, and nothing else changes.
use pigs.Prelude.{
  ℕ, ◌≤◌, ◌<◌, Bool, true, false, not, some, List, ◌∷◌, ltb, lt→ltb, ◌==◌, ◌≡◌, refl, arith,
  Bool-cases, inl, inr, ◌⊎◌, ap, sym, ◌∙◌, subst, ◌||◌, Returns, Returns-mono,
}
use mathlib.Core.Path.{subst₂}
use native.Mathlib.Decide.{dec_lt}
use pigs.Wheel.State.{Wheels, Table, Shard}
use pigs.Wheel.Table.{take_expired}
use pigs.Wheel.Table.Sound.{live, IsSound}
use pigs.Wheel.Table.Slots.{Vacated, Vacated-IsSound, live_of-Vacated}
use pigs.Wheel.Table.Keeps.{take_expired-Vacated}
use pigs.Wheel.Ops.{place, schedule}
use pigs.Wheel.Ops.Due.{Held, Waiting, Waiting-place, Waiting-place_self}
use pigs.Wheel.Ops.Cascade.{AllBounded, place-AllBounded}
use pigs.Wheel.Run.{Env, flush, expire, process_one}

-- From `s` to `s'` slots were only vacated, and no slot whose deadline is after the tick.
pub record Lapsed {K C : Type 0} (s s' : Shard K C) : Type 0 where
  pub same_tick : s'.tick ≡ s.tick
  pub same_len : s'.len ≡ s.len
  pub from :
      (i : ℕ) → live s'.table i ≡ true → (live s.table i ≡ true) × (s'.entries i ≡ s.entries i)
  pub kept :
      (i : ℕ)
      → live s.table i ≡ true
      → s.tick < (s.entries i).expire_tick
      → (live s'.table i ≡ true) × (s'.entries i ≡ s.entries i)

pub Lapsed-refl : {K C : Type 0} (s : Shard K C) → Lapsed s s
Lapsed-refl s = record {
  same_tick = refl;
  same_len = refl;
  from = λ i a. (a, refl);
  kept = λ i a b. (a, refl);
}

pub Lapsed-trans : {K C : Type 0} (s t u : Shard K C) → Lapsed s t → Lapsed t u → Lapsed s u
Lapsed-trans s t u a b = record {
  same_tick = b.same_tick ∙ a.same_tick;
  same_len = b.same_len ∙ a.same_len;
  from = λ i alive.
      let (mid, e) = b.from i alive in let (before, e') = a.from i mid in (before, e ∙ e');
  kept = λ i alive after.
      let (mid, e) = a.kept i alive after in
      let (now, e') = b.kept i mid (ground (arith, a.same_tick, e)) in (now, e' ∙ e);
}

module _ {K : Type 0} where
  -- A live entry waits for a deadline that has not passed, or is in the rest of the bucket.
  abbrev pub AllLeft : Table K → Wheels → ℕ → List (ℕ × ℕ) → Type 0
  AllLeft t w tick bucket =
      (i : ℕ)
      → live t i ≡ true
      → ((tick ≤ (t.entries i).expire_tick)
          × Waiting w tick i (t.entries i).version (t.entries i).expire_tick)
        ⊎ Held i (t.entries i).version bucket

-- What the processing of one bucket leaves.
pub record Swept {K C : Type 0} (hash : K → ℕ) (s s' : Shard K C) (rest : List (ℕ × ℕ))
    : Type 0 where
  pub lapsed : Lapsed s s'
  pub sound : IsSound hash s'.table
  pub bounded : AllBounded s'.len s'.wheels
  pub left : AllLeft s'.table s'.wheels s'.tick rest

module _ {K C : Type 0} (env : Env K C) (s : Shard K C) where
  -- Sending the batch touches neither the slots nor the wheels.
  pub flush_frame :
      ((flush env s).table ≡ s.table)
      × ((flush env s).wheels ≡ s.wheels)
      × ((flush env s).tick ≡ s.tick)
  unfolding flush
  flush_frame = ground arith

  pub expire_frame :
      (idx : ℕ) (k : K)
      → (s.entries idx).key ≡ some k
      → Returns (expire env s idx (s.entries idx)) (λ s'.
        (s'.table ≡ take_expired s.table idx (s.entries idx))
        × (s'.wheels ≡ s.wheels)
        × (s'.tick ≡ s.tick))
  unfolding expire flush
  expire_frame idx k e = ground arith

  module _ (idx ver : ℕ) (rest : List (ℕ × ℕ)) (sound : IsSound env.hash s.table)
      (ok : AllBounded s.len s.wheels) (within : idx < s.len)
      (left : AllLeft s.table s.wheels s.tick ((idx, ver) ∷ rest)) where
    stale : Bool
    stale = not (s.entries idx).in_use || not ((s.entries idx).version == ver)

    skip-Swept : stale ≡ true → Swept env.hash s s rest
    unfolding stale
    skip-Swept e = record {
      lapsed = Lapsed-refl s;
      sound = sound;
      bounded = ok;
      left = λ i alive. elim (left i alive) [
        | inl h ↦ inl h
        | inr (inl (a, b)) ↦ absurd (ground (arith, ap s.entries a))
        | inr (inr h) ↦ inr h
      ];
    }

    abbrev again : Shard K C
    again = record s {
      wheels = place s.wheels s.tick (idx, (s.entries idx).version) (s.entries idx).expire_tick;
    }

    place-Swept : s.tick < (s.entries idx).expire_tick → Swept env.hash s again rest
    place-Swept early = record {
      lapsed = record {
        same_tick = refl;
        same_len = refl;
        from = λ i a. (a, refl);
        kept = λ i a b. (a, refl);
      };
      sound = sound;
      bounded = place-AllBounded s.len s.wheels s.tick idx _ _ within ok;
      left = λ i alive. elim (left i alive) [
        | inl (le, h) ↦ inl (
          le,
          Waiting-place s.wheels s.tick (idx, (s.entries idx).version) (s.entries idx).expire_tick i
              _ _ h,
        )
        | inr (inl (a, b)) ↦ inl (
            subst
              (λ k.
                (s.tick ≤ (s.entries k).expire_tick)
                × Waiting again.wheels s.tick k (s.entries k).version (s.entries k).expire_tick)
              a (omega arith, Waiting-place_self s.wheels s.tick idx _ _))
        | inr (inr h) ↦ inr h
      ];
    }

    -- After the slot `idx` was vacated.
    vacate-Swept :
        (s' : Shard K C)
        → live s.table idx ≡ true
        → (s.entries idx).expire_tick ≤ s.tick
        → (s'.table ≡ take_expired s.table idx (s.entries idx))
          × (s'.wheels ≡ s.wheels)
          × (s'.tick ≡ s.tick)
        → Swept env.hash s s' rest
    vacate-Swept s' was late (e, e', e'') =
        let v : Vacated s.table s'.table idx =
          subst (λ t. Vacated s.table t idx) (sym e) (take_expired-Vacated s.table idx) in
        let from = live_of-Vacated env.hash s.table s'.table idx sound was v in
        record {
          lapsed = record {
            same_tick = e'';
            same_len = v.same_len;
            from = λ i alive. let (before, other, same) = from i alive in (before, same);
            kept = λ i alive after.
                let same = v.others i (λ h. ground (arith, ap s.entries h)) in
                (ground (arith, v.same_len), same);
          };
          sound = Vacated-IsSound env.hash s.table s'.table idx sound was v;
          bounded = subst₂ AllBounded (sym v.same_len) (sym e') ok;
          left = λ i alive.
              let (before, other, same) = from i alive in
              rw (same, e', e'')
                (elim (left i before) [
                  | inl h ↦ inl h
                  | inr (inl (a, b)) ↦ absurd (other (sym a))
                  | inr (inr h) ↦ inr h
                ]);
        }

    -- One reference is processed without a panic.
    pub process_one-Swept : Returns (process_one env s (idx, ver)) (λ s'. Swept env.hash s s' rest)
    unfolding process_one schedule stale
    process_one-Swept = elim (Bool-cases stale) [
      | inl e ↦ rw (lt→ltb idx s.len within, e) (skip-Swept e)
      | inr e ↦
          let was : live s.table idx ≡ true = ground arith in
          elim (dec_lt s.tick (s.entries idx).expire_tick) [
            | yes early ↦ rw (lt→ltb idx s.len within, e, lt→ltb _ _ early) (place-Swept early)
            | no late ↦
                let later : ltb s.tick (s.entries idx).expire_tick ≡ false = ground arith in
                let (k, written, _) = sound.keyed idx was in
                rw (lt→ltb idx s.len within, e, later)
                  (Returns-mono
                    (λ s'.
                      (s'.table ≡ take_expired s.table idx (s.entries idx))
                      × (s'.wheels ≡ s.wheels)
                      × (s'.tick ≡ s.tick))
                    (λ s'. Swept env.hash s s' rest) _ (λ s'. vacate-Swept s' was (omega arith))
                    (expire_frame idx k written))
          ]
    ]
