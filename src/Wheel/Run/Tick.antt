-- ===== src/Wheel/Run/Tick.antt =====
-- base/src/cache/c100k.rs: a tick on a shard that is ready for it, and the catching up of `on_tick`.
use pigs.Prelude.{
  ℕ, zero, suc, ◌+◌, ◌%◌, ◌≤◌, ◌<◌, true, ◌&&◌, List, [], ◌∷◌, ltb, lt→ltb, ◌==◌, update, ◌≡◌, refl,
  arith, Bool-cases, inl, inr, ap, sym, ◌∙◌, subst, All, Returns, Returns-bind, Returns-mono,
  length, if_intro,
}
use pigs.Wheel.State.{wheel_l1_len, Wheels, Shard, compact_threshold}
use pigs.Wheel.Table.Sound.{live, IsSound}
use pigs.Wheel.Ops.{retain_live, compact}
use pigs.Wheel.Ops.Due.{Held, Waiting}
use pigs.Wheel.Ops.Arrive.{Due-bucket}
use pigs.Wheel.Ops.Cascade.{AllBounded, AllWaiting, Bounded-clear, cascade-Cascaded}
use pigs.Wheel.Run.{Env, process_one, process_bucket, advance, catch_up}
use pigs.Wheel.Run.Expiry.{Lapsed-refl, Lapsed-trans, AllLeft, Swept, process_one-Swept}

-- Between two operations: the slots are sound, every reference is to a slot, every live entry waits.
pub record IsReady {K C : Type 0} (hash : K → ℕ) (s : Shard K C) : Type 0 where
  pub sound : IsSound hash s.table
  pub bounded : AllBounded s.len s.wheels
  pub waits : AllWaiting s.table s.wheels s.tick

Swept-trans :
    {K C : Type 0} (hash : K → ℕ) (s t u : Shard K C) (a b : List (ℕ × ℕ))
    → Swept hash s t a
    → Swept hash t u b
    → Swept hash s u b
Swept-trans hash s t u a b p q = record {
  lapsed = Lapsed-trans s t u p.lapsed q.lapsed;
  sound = q.sound;
  bounded = q.bounded;
  left = q.left;
}

module _ {K C : Type 0} (env : Env K C) where
  process_bucket-Swept :
      (bucket : List (ℕ × ℕ)) (s : Shard K C)
      → IsSound env.hash s.table
      → AllBounded s.len s.wheels
      → All (λ p. p.0 < s.len) bucket
      → AllLeft s.table s.wheels s.tick bucket
      → Returns (process_bucket env bucket s) (λ s'. Swept env.hash s s' [])
  unfolding process_bucket
  process_bucket-Swept [] s sound ok bound left = record {
    lapsed = Lapsed-refl s;
    sound = sound;
    bounded = ok;
    left = left;
  }
  process_bucket-Swept ((idx, ver) ∷ bucket) s sound ok bound left =
      Returns-bind (λ s'. Swept env.hash s s' bucket) (λ s'. Swept env.hash s s' [])
        (process_one env s (idx, ver)) (process_bucket env bucket)
        (process_one-Swept env s idx ver bucket sound ok bound.0 left)
        (λ s' p.
          Returns-mono (λ u. Swept env.hash s' u []) (λ u. Swept env.hash s u [])
            (process_bucket env bucket s') (λ u. Swept-trans env.hash s s' u bucket [] p)
            (process_bucket-Swept bucket s' p.sound p.bounded
              (subst (λ n. All (λ p. p.0 < n) bucket) (sym p.lapsed.same_len) bound.1) p.left))

module _ {K C : Type 0} (s : Shard K C) where
  -- The compaction drops stale references only.
  abbrev Compacted : List (ℕ × ℕ) → List (ℕ × ℕ) → Type 0
  Compacted bucket l =
      All (λ p. p.0 < s.len) l
      × ((i : ℕ)
          → live s.table i ≡ true
          → Held i (s.entries i).version bucket
          → Held i (s.entries i).version l)

  retain_live-Compacted :
      (bucket : List (ℕ × ℕ))
      → All (λ p. p.0 < s.len) bucket
      → Returns (retain_live s bucket) (Compacted bucket)
  unfolding retain_live
  retain_live-Compacted [] bound = (bound, λ i alive h. h)
  retain_live-Compacted ((idx, ver) ∷ bucket) bound = rw (lt→ltb idx s.len bound.0) (
      Returns-bind (Compacted bucket) (Compacted ((idx, ver) ∷ bucket)) (retain_live s bucket) _
        (retain_live-Compacted bucket bound.1)
        (λ l (ok, keeps).
          elim (Bool-cases ((s.entries idx).in_use && (s.entries idx).version == ver)) [
            | inl e ↦
                rw e
                  ((bound.0, ok), λ i alive. elim [ inl h ↦ inl h | inr h ↦ inr (keeps i alive h) ])
            | inr e ↦ rw e (
              ok,
              λ i alive. elim [
                | inl h ↦ absurd (ground (arith, ap s.entries h.0))
                | inr h ↦ keeps i alive h
              ],
            )
          ]))

  compact-Compacted :
      (bucket : List (ℕ × ℕ))
      → All (λ p. p.0 < s.len) bucket
      → Returns (compact s bucket) (Compacted bucket)
  unfolding compact
  compact-Compacted bucket bound =
      if_intro (ltb compact_threshold (length bucket)) (λ r. Returns r (Compacted bucket))
        (retain_live-Compacted bucket bound) (bound, λ i alive h. h)

-- What `ticks` ticks do: a live entry with a later deadline stays as it is, one that stays is
-- unchanged, and none is left whose deadline has passed.
pub record Ticked {K C : Type 0} (hash : K → ℕ) (s s' : Shard K C) (ticks : ℕ) : Type 0 where
  pub tick : s'.tick ≡ s.tick + ticks
  pub same_len : s'.len ≡ s.len
  pub from :
      (i : ℕ) → live s'.table i ≡ true → (live s.table i ≡ true) × (s'.entries i ≡ s.entries i)
  pub kept :
      (i : ℕ)
      → live s.table i ≡ true
      → s'.tick < (s.entries i).expire_tick
      → (live s'.table i ≡ true) × (s'.entries i ≡ s.entries i)
  pub prompt : (i : ℕ) → 0 < ticks → live s'.table i ≡ true → s'.tick ≤ (s'.entries i).expire_tick
  pub ready : IsReady hash s'

module _ {K C : Type 0} (env : Env K C) where
  Ticked-of-Swept :
      (s s' : Shard K C) (w : Wheels)
      → Swept env.hash (record s { wheels = w; tick = s.tick + 1 }) s' []
      → Ticked env.hash s s' 1
  Ticked-of-Swept s s' w p = record {
    tick = p.lapsed.same_tick;
    same_len = p.lapsed.same_len;
    from = p.lapsed.from;
    kept = λ i alive after. p.lapsed.kept i alive (omega (arith, p.lapsed.same_tick));
    prompt = λ i _ alive. (waiting i alive).0;
    ready = record { sound = p.sound; bounded = p.bounded; waits = λ i alive. (waiting i alive).1 };
  }
    where
      waiting :
          (i : ℕ)
          → live s'.table i ≡ true
          → (s'.tick ≤ (s'.entries i).expire_tick)
            × Waiting s'.wheels s'.tick i (s'.entries i).version (s'.entries i).expire_tick
      waiting i alive = elim (p.left i alive) [ inl h ↦ h | inr h ↦ absurd h ]

  -- One tick of a ready shard never panics; afterwards it is ready, and no live entry's deadline
  -- has passed.
  pub advance-Ticked :
      (s : Shard K C) → IsReady env.hash s → Returns (advance env s) (λ s'. Ticked env.hash s s' 1)
  unfolding advance
  advance-Ticked s r =
      let (w, ran, ok, due) = cascade-Cascaded s r.bounded r.waits in
      let slot = (s.tick + 1) % wheel_l1_len in
      let w' = record w { wheel_l1 = update w.wheel_l1 slot [] } in
      let taken = record s { wheels = w'; tick = s.tick + 1 } in
      let ok' : AllBounded s.len w' = record {
        l1 = Bounded-clear s.len w.wheel_l1 slot ok.l1;
        l2 = ok.l2;
        l3 = ok.l3;
      } in
      let left : AllLeft s.table w' (s.tick + 1) (w.wheel_l1 slot) =
        λ i alive. Due-bucket w (s.tick + 1) i _ _ (due i alive) in
      rw ran (
        Returns-bind (Compacted taken (w.wheel_l1 slot)) (λ s'. Ticked env.hash s s' 1)
          (compact taken (w.wheel_l1 slot)) _
          (compact-Compacted taken (w.wheel_l1 slot) (ok.l1 slot))
          (λ l (bound, keeps).
            Returns-mono (λ s'. Swept env.hash taken s' []) (λ s'. Ticked env.hash s s' 1)
              (process_bucket env l taken) (λ s'. Ticked-of-Swept s s' w')
              (process_bucket-Swept env l taken r.sound ok' bound (λ i alive. elim (left i alive) [
                | inl h ↦ inl h
                | inr h ↦ inr (keeps i alive h)
              ]))))

  Ticked-trans :
      (s t u : Shard K C) (n : ℕ)
      → Ticked env.hash s t 1
      → Ticked env.hash t u n
      → Ticked env.hash s u (suc n)
  Ticked-trans s t u n a b = record {
    tick = omega (arith, a.tick, b.tick);
    same_len = b.same_len ∙ a.same_len;
    from = λ i alive.
        let (mid, e) = b.from i alive in let (before, e') = a.from i mid in (before, e ∙ e');
    kept = λ i alive after.
        let (mid, e) = a.kept i alive (omega (arith, b.tick)) in
        let (now, e') = b.kept i mid (ground (arith, e)) in (now, e' ∙ e);
    prompt = λ i _ alive. last n b i alive;
    ready = b.ready;
  }
    where
      last :
          (n : ℕ)
          → Ticked env.hash t u n
          → (i : ℕ) → live u.table i ≡ true
          → u.tick ≤ (u.entries i).expire_tick
      last zero b i alive =
          let (mid, e) = b.from i alive in ground (arith, a.prompt i (omega arith) mid, e, b.tick)
      last (suc n) b i alive = b.prompt i (omega arith) alive

  pub catch_up-Ticked :
      (rounds : ℕ) (s : Shard K C)
      → IsReady env.hash s
      → Returns (catch_up env rounds s) (λ s'. Ticked env.hash s s' rounds)
  unfolding catch_up
  catch_up-Ticked zero s r = record {
    tick = omega arith;
    same_len = refl;
    from = λ i alive. (alive, refl);
    kept = λ i alive _. (alive, refl);
    prompt = λ i pos alive. absurd (omega arith);
    ready = r;
  }
  catch_up-Ticked (suc rounds) s r =
      Returns-bind (λ t. Ticked env.hash s t 1) (λ u. Ticked env.hash s u (suc rounds))
        (advance env s) (catch_up env rounds) (advance-Ticked s r)
        (λ t a.
          Returns-mono (λ u. Ticked env.hash t u rounds) (λ u. Ticked env.hash s u (suc rounds))
            (catch_up env rounds t) (λ u. Ticked-trans s t u rounds a)
            (catch_up-Ticked rounds t a.ready))
