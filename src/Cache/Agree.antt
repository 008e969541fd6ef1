-- ===== src/Cache/Agree.antt =====
-- base/src/cache/mod.rs: the purge task's two maps agree, so that its queue never panics.
use pigs.Prelude.{
  ℕ, false, Option, none, some, ◌==◌, if◌then◌else◌, ◌≡◌, subst, update, Bool-cases, inl, inr,
  ==_iff, arith,
}
use pigs.Cache.{DelayQueue}

-- The tokens are those of the queue's entries, each with its key.
pub record Agree (d : DelayQueue) (q : d.Queue) (key_map : ℕ → Option ℕ) : Type 0 where
  pub held : (key t : ℕ) → key_map key ≡ some t → (w : ℕ) × (d.holds q t ≡ some (key, w))
  pub known : (t key w : ℕ) → d.holds q t ≡ some (key, w) → key_map key ≡ some t

module _ (d : DelayQueue) where
  pub Agree-empty : (q : d.Queue) → ((t : ℕ) → d.holds q t ≡ none) → Agree d q (λ key. none)
  Agree-empty q h = record {
    held = λ key t e. absurd (ground (arith, e));
    known = λ t key w e. absurd (ground (arith, e, h t));
  }

  pub Agree-insert :
      (q q1 : d.Queue) (key_map : ℕ → Option ℕ) (key t w : ℕ)
      → Agree d q key_map
      → key_map key ≡ none
      → d.holds q t ≡ none
      → ((u : ℕ) → d.holds q1 u ≡ (if t == u then some (key, w) else d.holds q u))
      → Agree d q1 (update key_map key (some t))
  Agree-insert q q1 key_map key t w h free fresh same = record {
    held = λ j u e. elim (Bool-cases (key == j)) [
      | inl here ↦ (w, ground (arith, e, here, same u))
      | inr away ↦
          let (w1, old) = h.held j u (ground (arith, e, away)) in
          (
            w1,
            elim (Bool-cases (t == u)) [
              | inl here ↦
                  let absent : d.holds q u ≡ none =
                    subst (λ x. d.holds q x ≡ none) ((==_iff t u).0 here) fresh in
                  absurd (ground (arith, absent, old))
              | inr other ↦ ground (arith, old, other, same u)
            ],
          )
    ];
    known = λ u j w1 e. elim (Bool-cases (t == u)) [
      | inl here ↦ ground (arith, e, here, same u)
      | inr away ↦
          let old : d.holds q u ≡ some (j, w1) = ground (arith, e, away, same u) in
          let there = h.known u j w1 old in
          elim (Bool-cases (key == j)) [
            | inl here ↦
                let gone : key_map j ≡ none =
                  subst (λ k. key_map k ≡ none) ((==_iff key j).0 here) free in
                absurd (ground (arith, gone, there))
            | inr other ↦ ground (arith, other, there)
          ]
    ];
  }

  pub Agree-reset :
      (q q1 : d.Queue) (key_map : ℕ → Option ℕ) (key t w : ℕ)
      → Agree d q key_map
      → key_map key ≡ some t
      → ((u : ℕ) → d.holds q1 u ≡ (if t == u then some (key, w) else d.holds q u))
      → Agree d q1 key_map
  Agree-reset q q1 key_map key t w h there same = record {
    held = λ j u e.
        let (w1, old) = h.held j u e in
        elim (Bool-cases (t == u)) [
          | inl here ↦
              let (w2, mine) = h.held key t there in
              let both : d.holds q u ≡ some (key, w2) =
                subst (λ x. d.holds q x ≡ some (key, w2)) ((==_iff t u).0 here) mine in
              (w, ground (arith, here, both, old, same u))
          | inr away ↦ (w1, ground (arith, away, old, same u))
        ];
    known = λ u j w1 e. elim (Bool-cases (t == u)) [
      | inl here ↦
          let key_is : j ≡ key = ground (arith, here, e, same u) in
          ground (arith, here, key_is, there)
      | inr away ↦ h.known u j w1 (ground (arith, away, e, same u))
    ];
  }

  pub Agree-remove :
      (q q1 : d.Queue) (key_map : ℕ → Option ℕ) (key t : ℕ)
      → Agree d q key_map
      → key_map key ≡ some t
      → ((u : ℕ) → d.holds q1 u ≡ (if t == u then none else d.holds q u))
      → Agree d q1 (update key_map key none)
  Agree-remove q q1 key_map key t h there same = record {
    held = λ j u e.
        let away : (key == j) ≡ false = ground (arith, e) in
        let (w1, old) = h.held j u (ground (arith, e, away)) in
        elim (Bool-cases (t == u)) [
          | inl here ↦
              let (w2, mine) = h.held key t there in
              let both : d.holds q u ≡ some (key, w2) =
                subst (λ x. d.holds q x ≡ some (key, w2)) ((==_iff t u).0 here) mine in
              absurd (ground (arith, both, old, away))
          | inr other ↦ (w1, ground (arith, other, old, same u))
        ];
    known = λ u j w1 e.
        let away : (t == u) ≡ false = ground (arith, e, same u) in
        let old = h.known u j w1 (ground (arith, away, e, same u)) in
        elim (Bool-cases (key == j)) [
          | inl here ↦
              let mine : key_map j ≡ some t =
                subst (λ k. key_map k ≡ some t) ((==_iff key j).0 here) there in
              absurd (ground (arith, mine, old, away))
          | inr other ↦ ground (arith, other, old)
        ];
  }
