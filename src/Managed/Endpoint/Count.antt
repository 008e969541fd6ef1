-- ===== src/Managed/Endpoint/Count.antt =====
-- base/src/net/rw.rs: the closing counts every task once.
use pigs.Prelude.{
  ℕ, ◌^◌, ◌<◌, ◌≤◌, true, false, not, none, List, [], ◌∷◌, ◌==◌, if_intro, ◌≡◌, refl, sym, ap, ◌∙◌,
  subst, arith, Bool-cases, inl, inr, ==_iff,
}
use pigs.Managed.Report.{Field, told, NetworkCloseReport}
use pigs.Managed.Endpoint.{Endpoint, contains, without, close_connection, close_each}
use pigs.Managed.Endpoint.Ending.{IsOwned, close_connection-Closes, contains-without}
use pigs.Managed.Endpoint.Handing.{
  due, sum, Unique, connections_due, merge_network-told, sum-without, Handed, HasNoTask,
  close-Handed,
}

Unique-without : (xs : List ℕ) (id : ℕ) → Unique xs → Unique (without xs id)
unfolding without
Unique-without [] id u = u
Unique-without (x ∷ xs) id u =
    let rest = Unique-without xs id u.1 in
    let absent : contains (without xs id) x ≡ false =
      ground (arith, contains-without xs id x, u.0) in
    if_intro (not (x == id)) Unique (absent, rest) rest

-- What the connections are to tell of is the same before and after one of them is closed.
Handed-due :
    (field : Field) (e e1 : Endpoint) (id : ℕ) (r : NetworkCloseReport)
    → Handed field e id r e1
    → Unique e.active_connections
    → contains e.active_connections id ≡ true
    → connections_due field e < 2 ^ 64
    → connections_due field e1 ≡ connections_due field e
Handed-due field e e1 id r h u there small =
    let f = λ (j : ℕ). due field (e.connections j) in
    let g = λ (j : ℕ). due field (e1.connections j) in
    let sums =
      sum-without f g e.active_connections id u there
        (λ j away. ap (due field) (h.others j away)) in
    let list = ap (sum g) h.left_map in
    let all = h.all_told in
    let told_of = ap (told field) h.merged in
    let merged = merge_network-told field e.completed_connection_report r (omega arith) in
    omega arith

due-le : (f : ℕ → ℕ) (xs : List ℕ) (id : ℕ) → contains xs id ≡ true → f id ≤ sum f xs
unfolding contains
due-le f [] id h = absurd (ground arith)
due-le f (x ∷ xs) id h = elim (Bool-cases (x == id)) [
  | inl here ↦ let one = ap f ((==_iff x id).0 here) in omega arith
  | inr away ↦ let rest = due-le f xs id (ground arith) in omega arith
]

-- What the closing of connections leaves as it was.
pub record Counted (field : Field) (e e1 : Endpoint) : Type 0 where
  pub same_due : connections_due field e1 ≡ connections_due field e
  pub same_report : e1.report ≡ e.report
  pub same_root : e1.root_task ≡ e.root_task

-- The map as the endpoint keeps it.
pub record IsMap (e : Endpoint) : Type 0 where
  pub owned : IsOwned e
  pub no_task : HasNoTask e
  pub unique : Unique e.active_connections

close-IsMap :
    (field : Field) (e : Endpoint) (id : ℕ) (r : NetworkCloseReport)
    → IsMap e
    → Handed field e id r (close_connection e id).1
    → IsMap (close_connection e id).1
close-IsMap field e id r h done =
    let closes = close_connection-Closes e id h.owned in
    record {
      owned = closes.owned;
      no_task = λ j there.
          let rest = closes.rest j in
          let away : (id == j) ≡ false = ground (arith, rest, there) in
          let old : contains e.active_connections j ≡ true = ground (arith, rest, there) in
          subst (λ c. c.completed ≡ true → c.task ≡ none) (sym (done.others j away))
            (h.no_task j old);
      unique = subst Unique (sym done.left_map) (Unique-without e.active_connections id h.unique);
    }

contains-head : (id : ℕ) (ids : List ℕ) → contains (id ∷ ids) id ≡ true
unfolding contains
contains-head id ids = ground arith

contains-tail :
    (id : ℕ) (ids : List ℕ) (j : ℕ) → contains ids j ≡ true → contains (id ∷ ids) j ≡ true
unfolding contains
contains-tail id ids j h = ground arith

contains-away :
    (id : ℕ) (ids : List ℕ) (j : ℕ)
    → contains ids id ≡ false
    → contains ids j ≡ true
    → (id == j) ≡ false
contains-away id ids j absent there = elim (Bool-cases (id == j)) [
  | inl here ↦
      let eq : contains ids id ≡ contains ids j = ap (contains ids) ((==_iff id j).0 here) in
      absurd (ground arith)
  | inr away ↦ away
]

pub close_each-Counted :
    (field : Field) (e : Endpoint) (ids : List ℕ)
    → IsMap e
    → Unique ids
    → ((j : ℕ) → contains ids j ≡ true → contains e.active_connections j ≡ true)
    → connections_due field e < 2 ^ 64
    → Counted field e (close_each e ids)
unfolding close_each
close_each-Counted field e [] h u inside small = record {
  same_due = refl;
  same_report = refl;
  same_root = refl;
}
close_each-Counted field e (id ∷ ids) h u inside small =
    let there = inside id (contains-head id ids) in
    let below = due-le (λ j. due field (e.connections j)) e.active_connections id there in
    let (r, done) = close-Handed field e id (h.owned id there) h.no_task there (omega arith) in
    let e1 = (close_connection e id).1 in
    let same = Handed-due field e e1 id r done h.unique there small in
    let closes = close_connection-Closes e id h.owned in
    let rest =
      close_each-Counted field e1 ids (close-IsMap field e id r h done) u.1
        (λ j in_rest.
          let rest_of = closes.rest j in
          let old = inside j (contains-tail id ids j in_rest) in
          let away = contains-away id ids j u.0 in_rest in ground (arith, rest_of, old, away))
        (omega arith) in
    record {
      same_due = rest.same_due ∙ same;
      same_report = rest.same_report ∙ done.same_report;
      same_root = rest.same_root ∙ done.same_root;
    }
