-- ===== src/Managed/Endpoint/Ending.antt =====
-- base/src/net/rw.rs: the endpoint's loop over its active connections ends.
use pigs.Prelude.{
  ℕ, zero, suc, true, false, not, ◌&&◌, List, [], ◌∷◌, ◌==◌, update-other, ◌≡◌, refl, sym, ap, ◌∙◌,
  subst, arith, Bool-cases, inl, inr, ==_iff,
}
use pigs.Managed.Report.{NetworkCloseReport}
use pigs.Managed.Endpoint.{
  Connection, Endpoint, contains, without, set_connection, hand_over, finalize_owner, awaited,
  close_connection, close_each, none_active, close_active,
}
use pigs.Managed.Endpoint.Closing.{close_again, close_first}

pub contains-without :
    (xs : List ℕ) (k j : ℕ) → contains (without xs k) j ≡ (contains xs j && not (k == j))
unfolding contains without
contains-without [] k j = refl
contains-without (x ∷ xs) k j = ground (arith, contains-without xs k j)

contains_none : (xs : List ℕ) → ((j : ℕ) → contains xs j ≡ false) → xs ≡ []
unfolding contains
contains_none [] h = refl
contains_none (x ∷ xs) h = let e = h x in absurd (ground arith)

-- Every connection in the endpoint's map knows that it is.
abbrev pub IsOwned : Endpoint → Type 0
IsOwned e =
    (id : ℕ) → contains e.active_connections id ≡ true → (e.connections id).owner_registered ≡ true

-- The connection is out of the map, and no other left or came.
pub record Closes (e : Endpoint) (id : ℕ) (e1 : Endpoint) : Type 0 where
  pub rest :
      (j : ℕ)
      → contains e1.active_connections j ≡ (contains e.active_connections j && not (id == j))
  pub owned : IsOwned e1

hand_over-Closes :
    (e : Endpoint) (id : ℕ) (r : NetworkCloseReport) → IsOwned e → Closes e id (hand_over e id r)
unfolding hand_over
hand_over-Closes e id r h = record {
  rest = λ j. contains-without e.active_connections id j;
  owned = λ j there.
      let both = contains-without e.active_connections id j in
      let away : (id == j) ≡ false = ground (arith, both, there) in
      let old : contains e.active_connections j ≡ true = ground (arith, both, there) in
      let same =
        update-other e.connections id j (record (e.connections id) { owner_registered = false })
          away in
      ap (λ c. c.owner_registered) same ∙ h j old;
}

free-Closes :
    (e : Endpoint) (id : ℕ)
    → IsOwned e
    → (e.connections id).owner_registered ≡ false
    → Closes e id e
free-Closes e id h free = record {
  rest = λ j. elim (Bool-cases (id == j)) [
    | inl here ↦
        let same = (==_iff id j).0 here in
        elim (Bool-cases (contains e.active_connections id)) [
          | inl there ↦ absurd (let o = h id there in ground (arith, o, free))
          | inr absent ↦
              let gone : contains e.active_connections j ≡ false =
                subst (λ k. contains e.active_connections k ≡ false) same absent in
              rw gone refl
        ]
    | inr away ↦ rw away (ground arith)
  ];
  owned = h;
}

finalize-Closes :
    (e : Endpoint) (id : ℕ) (r : NetworkCloseReport)
    → IsOwned e
    → Closes e id (finalize_owner e id r)
unfolding finalize_owner
finalize-Closes e id r h = elim (Bool-cases ((e.connections id).owner_registered)) [
  | inl registered ↦
      let eq : finalize_owner e id r ≡ hand_over e id r = simp registered in
      subst (Closes e id) (sym eq) (hand_over-Closes e id r h)
  | inr free ↦
      let eq : finalize_owner e id r ≡ e = simp free in
      subst (Closes e id) (sym eq) (free-Closes e id h free)
]

set-IsOwned :
    (e : Endpoint) (id : ℕ) (c : Connection)
    → IsOwned e
    → c.owner_registered ≡ (e.connections id).owner_registered
    → IsOwned (set_connection e id c)
unfolding set_connection
set-IsOwned e id c h same j there = elim (Bool-cases (id == j)) [
  | inl here ↦
      let eq = (==_iff id j).0 here in
      let old : (e.connections id).owner_registered ≡ true =
        h id (subst (λ k. contains e.active_connections k ≡ true) (sym eq) there) in
      rw here (same ∙ old)
  | inr away ↦ rw away (h j there)
]

pub close_connection-Closes :
    (e : Endpoint) (id : ℕ) → IsOwned e → Closes e id (close_connection e id).1
unfolding awaited set_connection
close_connection-Closes e id h = elim (Bool-cases ((e.connections id).completed)) [
  | inl over ↦
      subst (λ p. Closes e id p.1) (sym (close_again e id over))
        (finalize-Closes e id (e.connections id).report h)
  | inr fresh ↦
      let c = awaited (e.connections id) in
      let done = finalize-Closes (set_connection e id c) id c.report (set-IsOwned e id c h refl) in
      subst (λ p. Closes e id p.1) (sym (close_first e id fresh))
        (record { rest = done.rest; owned = done.owned })
]

-- The connections of a list are out of the map.
pub record ClosesAll (e : Endpoint) (ids : List ℕ) (e1 : Endpoint) : Type 0 where
  pub rest :
      (j : ℕ)
      → contains e1.active_connections j ≡ (contains e.active_connections j && not (contains ids j))
  pub owned : IsOwned e1

pub close_each-ClosesAll :
    (e : Endpoint) (ids : List ℕ) → IsOwned e → ClosesAll e ids (close_each e ids)
unfolding close_each contains
close_each-ClosesAll e [] h = record { rest = λ j. ground arith; owned = h }
close_each-ClosesAll e (id ∷ ids) h =
    let one = close_connection-Closes e id h in
    let all = close_each-ClosesAll (close_connection e id).1 ids one.owned in
    record { rest = λ j. ground (arith, all.rest j, one.rest j); owned = all.owned }

-- One pass empties the map.
close_pass :
    (e : Endpoint) → IsOwned e → (close_each e e.active_connections).active_connections ≡ []
close_pass e h =
    let all = close_each-ClosesAll e e.active_connections h in
    contains_none (close_each e e.active_connections).active_connections
      (λ j. ground (arith, all.rest j))

close_active-done : (fuel : ℕ) (e : Endpoint) → e.active_connections ≡ [] → close_active fuel e ≡ e
unfolding close_active none_active
close_active-done zero e h = refl
close_active-done (suc fuel) e h =
    let no_more : none_active e.active_connections ≡ true =
      subst (λ l. none_active l ≡ true) (sym h) refl in
    simp no_more

none_active-eq : (ids : List ℕ) → none_active ids ≡ true → ids ≡ []
unfolding none_active
none_active-eq [] h = refl
none_active-eq (id ∷ ids) h = absurd (ground arith)

close_active-pass :
    (fuel : ℕ) (e : Endpoint)
    → IsOwned e
    → close_active (suc fuel) e ≡ close_each e e.active_connections
unfolding close_active close_each
close_active-pass fuel e h = elim (Bool-cases (none_active e.active_connections)) [
  | inl none_there ↦
      let eq : close_active (suc fuel) e ≡ e = simp none_there in
      eq ∙ ap (close_each e) (sym (none_active-eq e.active_connections none_there))
  | inr some_there ↦
      let eq : close_active (suc fuel) e ≡ close_active fuel (close_each e e.active_connections) =
        simp some_there in
      eq ∙ close_active-done fuel (close_each e e.active_connections) (close_pass e h)
]

-- If every connection in the endpoint's map knows that it is, then whatever is left to close, the
-- loop over the active connections ends after one pass: the map is empty, and more fuel changes
-- nothing.
pub close_active-ends :
    (fuel : ℕ) (e : Endpoint)
    → IsOwned e
    → ((close_active (suc fuel) e).active_connections ≡ [])
      × (close_active (suc fuel) e ≡ close_each e e.active_connections)
close_active-ends fuel e h =
    let pass = close_active-pass fuel e h in
    (ap (λ x. x.active_connections) pass ∙ close_pass e h, pass)
