-- ===== src/Managed/Endpoint/Handing.antt =====
-- base/src/net/rw.rs: what the closing of one connection hands over.
use pigs.Prelude.{
  ℕ, ◌+◌, ◌^◌, ◌<◌, true, false, Option, none, some, List, [], ◌∷◌, ◌==◌, if◌then◌else◌,
  update-same, update-other, ◌≡◌, refl, sym, ap, ◌∙◌, subst, arith, Bool-cases, inl, inr, ==_iff,
}
use pigs.Managed.Report.{
  Field, the_completed, the_cancelled, the_failed, the_panicked, the_remaining, told, error_due,
  NetworkCloseReport, Joined, returned, returned_error, join_error, is_panic, is_cancelled,
  other_error, merge_network, record_join_error, close_report_result,
}
use pigs.Managed.Endpoint.{
  Connection, Endpoint, contains, without, set_connection, record_task, hand_over, finalize_owner,
  awaited, close_connection,
}
use pigs.Managed.Endpoint.Closing.{close_again, close_first}

-- What a connection's task adds to a count.
abbrev one_of : Field → Option Joined → ℕ
one_of f none = 0
one_of the_completed (some returned) = 1
one_of f (some returned) = 0
one_of the_failed (some returned_error) = 1
one_of f (some returned_error) = 0
one_of f (some (join_error error)) = error_due f error

-- What a connection is going to add to a count.
abbrev pub due : Field → Connection → ℕ
due f c = told f c.report + one_of f c.task

abbrev pub sum : (ℕ → ℕ) → List ℕ → ℕ
sum f [] = 0
sum f (x ∷ xs) = f x + sum f xs

abbrev pub Unique : List ℕ → Type 0
Unique [] = Unit
Unique (x ∷ xs) = (contains xs x ≡ false) × Unique xs

-- What the connections of the map, and those that left it, are to tell of.
abbrev pub connections_due : Field → Endpoint → ℕ
connections_due f e =
    told f e.completed_connection_report + sum (λ id. due f (e.connections id)) e.active_connections

record_task-told :
    (f : Field) (t : Option Joined) (r : NetworkCloseReport)
    → told f r + one_of f t < 2 ^ 64
    → told f (record_task t r) ≡ told f r + one_of f t
unfolding record_task record_join_error
record_task-told the_completed none r h = omega arith
record_task-told the_completed (some returned) r h = omega arith
record_task-told the_completed (some returned_error) r h = omega arith
record_task-told the_completed (some (join_error is_panic)) r h = omega arith
record_task-told the_completed (some (join_error is_cancelled)) r h = omega arith
record_task-told the_completed (some (join_error other_error)) r h = omega arith
record_task-told the_cancelled none r h = omega arith
record_task-told the_cancelled (some returned) r h = omega arith
record_task-told the_cancelled (some returned_error) r h = omega arith
record_task-told the_cancelled (some (join_error is_panic)) r h = omega arith
record_task-told the_cancelled (some (join_error is_cancelled)) r h = omega arith
record_task-told the_cancelled (some (join_error other_error)) r h = omega arith
record_task-told the_failed none r h = omega arith
record_task-told the_failed (some returned) r h = omega arith
record_task-told the_failed (some returned_error) r h = omega arith
record_task-told the_failed (some (join_error is_panic)) r h = omega arith
record_task-told the_failed (some (join_error is_cancelled)) r h = omega arith
record_task-told the_failed (some (join_error other_error)) r h = omega arith
record_task-told the_panicked none r h = omega arith
record_task-told the_panicked (some returned) r h = omega arith
record_task-told the_panicked (some returned_error) r h = omega arith
record_task-told the_panicked (some (join_error is_panic)) r h = omega arith
record_task-told the_panicked (some (join_error is_cancelled)) r h = omega arith
record_task-told the_panicked (some (join_error other_error)) r h = omega arith
record_task-told the_remaining none r h = omega arith
record_task-told the_remaining (some returned) r h = omega arith
record_task-told the_remaining (some returned_error) r h = omega arith
record_task-told the_remaining (some (join_error is_panic)) r h = omega arith
record_task-told the_remaining (some (join_error is_cancelled)) r h = omega arith
record_task-told the_remaining (some (join_error other_error)) r h = omega arith

pub merge_network-told :
    (f : Field) (a b : NetworkCloseReport)
    → told f a + told f b < 2 ^ 64
    → told f (merge_network a b) ≡ told f a + told f b
unfolding merge_network
merge_network-told the_completed a b h = omega arith
merge_network-told the_cancelled a b h = omega arith
merge_network-told the_failed a b h = omega arith
merge_network-told the_panicked a b h = omega arith
merge_network-told the_remaining a b h = omega arith

-- A sum over a list from which one item is taken, of a function that may change at that item.
sum-without_absent :
    (f g : ℕ → ℕ) (xs : List ℕ) (id : ℕ)
    → contains xs id ≡ false
    → ((j : ℕ) → (id == j) ≡ false → g j ≡ f j)
    → sum g (without xs id) ≡ sum f xs
unfolding contains without
sum-without_absent f g [] id h same = refl
sum-without_absent f g (x ∷ xs) id h same =
    let away : (x == id) ≡ false = ground arith in
    let rest = sum-without_absent f g xs id (ground arith) same in
    let one = same x (ground arith) in rw away (omega arith)

pub sum-without :
    (f g : ℕ → ℕ) (xs : List ℕ) (id : ℕ)
    → Unique xs
    → contains xs id ≡ true
    → ((j : ℕ) → (id == j) ≡ false → g j ≡ f j)
    → sum g (without xs id) + f id ≡ sum f xs
unfolding contains without
sum-without f g [] id u h same = absurd (ground arith)
sum-without f g (x ∷ xs) id u h same = elim (Bool-cases (x == id)) [
  | inl here ↦
      let eq = (==_iff x id).0 here in
      let gone = sum-without_absent f g xs id (subst (λ k. contains xs k ≡ false) eq u.0) same in
      rw here (let one = ap f eq in omega arith)
  | inr away ↦
      let rest = sum-without f g xs id u.1 (ground arith) same in
      let one = same x (ground arith) in rw away (omega arith)
]

-- A connection of the map was closed and handed over, with a report of its tasks.
pub record Handed (f : Field) (e : Endpoint) (id : ℕ) (r : NetworkCloseReport) (e1 : Endpoint)
    : Type 0 where
  pub others : (j : ℕ) → (id == j) ≡ false → e1.connections j ≡ e.connections j
  pub left_map : e1.active_connections ≡ without e.active_connections id
  pub merged : e1.completed_connection_report ≡ merge_network e.completed_connection_report r
  pub all_told : told f r ≡ due f (e.connections id)
  pub same_report : e1.report ≡ e.report
  pub same_root : e1.root_task ≡ e.root_task

-- A connection of the map that is closed has no task left to await.
abbrev pub HasNoTask : Endpoint → Type 0
HasNoTask e =
    (id : ℕ)
    → contains e.active_connections id ≡ true
    → (e.connections id).completed ≡ true
    → (e.connections id).task ≡ none

hand_over-Handed :
    (f : Field) (e : Endpoint) (id : ℕ) (r : NetworkCloseReport)
    → told f r ≡ due f (e.connections id)
    → Handed f e id r (hand_over e id r)
unfolding hand_over
hand_over-Handed f e id r h = record {
  others = λ j away.
      update-other e.connections id j (record (e.connections id) { owner_registered = false }) away;
  left_map = refl;
  merged = refl;
  all_told = h;
  same_report = refl;
  same_root = refl;
}

finalize-hand_over :
    (e : Endpoint) (id : ℕ) (r : NetworkCloseReport)
    → (e.connections id).owner_registered ≡ true
    → finalize_owner e id r ≡ hand_over e id r
unfolding finalize_owner
finalize-hand_over e id r registered = simp registered

-- The report with which a connection is closed.
abbrev final_report : Connection → NetworkCloseReport
final_report c = if c.completed then c.report else record_task c.task c.report

pub close-Handed :
    (f : Field) (e : Endpoint) (id : ℕ)
    → (e.connections id).owner_registered ≡ true
    → HasNoTask e
    → contains e.active_connections id ≡ true
    → due f (e.connections id) < 2 ^ 64
    → (r : NetworkCloseReport) × Handed f e id r (close_connection e id).1
unfolding awaited set_connection
close-Handed f e id registered no_task there small =
    let c = e.connections id in
    elim (Bool-cases c.completed) [
      | inl over ↦
          let eq =
            close_again e id over
            ∙ ap (λ x. (close_report_result c.report false, x))
                (finalize-hand_over e id c.report registered) in
          let nothing : one_of f c.task ≡ 0 = ap (one_of f) (no_task id there over) in
          (
            c.report,
            subst (λ p. Handed f e id c.report p.1) (sym eq)
                (hand_over-Handed f e id c.report (omega arith)),
          )
      | inr fresh ↦
          let e1 = set_connection e id (awaited c) in
          let r = record_task c.task c.report in
          let same = update-same e.connections id (awaited c) in
          let kept : (e1.connections id).owner_registered ≡ true =
            ap (λ x. x.owner_registered) same ∙ registered in
          let eq = finalize-hand_over e1 id r kept in
          let all : told f r ≡ due f c = record_task-told f c.task c.report small in
          let base = hand_over-Handed f e1 id r (let d = ap (due f) same in omega arith) in
          (
            r,
            subst (λ p. Handed f e id r p.1) (sym (close_first e id fresh))
                (subst (Handed f e id r) (sym eq) (record {
                  others = λ j away.
                      base.others j away ∙ update-other e.connections id j (awaited c) away;
                  left_map = base.left_map;
                  merged = base.merged;
                  all_told = all;
                  same_report = base.same_report;
                  same_root = base.same_root;
                })),
          )
    ]
