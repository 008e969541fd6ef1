-- ===== src/Runtime/Shutdown/Reports.antt =====
-- base/src/utils/rt.rs: which runtimes the shutdown reports, and that it shuts them all.
use pigs.Prelude.{
  ℕ, ◌+◌, ◌-◌, ◌≤◌, Bool, true, false, not, ◌&&◌, ◌||◌, Option, none, some, List, [], ◌∷◌, ◌++◌,
  ◌==◌, if◌then◌else◌, length, count, retain, ◌≡◌, refl, sym, ap, ap₂, ◌∙◌, subst, arith,
  Bool-cases, inl, inr,
}
use pigs.Runtime.Stages.{main, contains, contains-count, stages, stages-once}
use pigs.Runtime.Registry.{RuntimeRegistry}
use pigs.Runtime.Shutdown.{
  RuntimeShutdownReport, Meeting, shutdown_runtime, prepare_main_shutdown, shut_stages, shutdown,
  time_after, stage_timeout, push_report,
}
use pigs.Runtime.Registry.Keeps.{Shut}
use pigs.Runtime.Shutdown.Stops.{types, shutdown_runtime-Stops, prepare_main_shutdown-StopsMain}

-- The runtime has a stage, or is the main one.
abbrev is_stage : List ℕ → ℕ → Bool
is_stage ordered k = contains ordered k || (k == main)

record ShutsAll (r : RuntimeRegistry) (ordered : List ℕ)
    (s : List RuntimeShutdownReport × RuntimeRegistry) : Type 0 where
  reported :
      types s.0
      ≡ retain (contains r.runtimes) ordered ++ (if contains r.runtimes main then main ∷ [] else [])
  left : (j : ℕ) → contains s.1.runtimes j ≡ contains r.runtimes j && not (contains ordered j)
  shut : (j : ℕ) → Shut r j → Shut s.1 j
  closed : (j : ℕ) → contains r.runtimes j ≡ true → is_stage ordered j ≡ true → Shut s.1 j
  failed : r.failed ≡ true → s.1.failed ≡ true
  shutting : s.1.shutting_down ≡ true

abbrev IsOnce : List ℕ → Type 0
IsOnce [] = Unit
IsOnce (k ∷ ordered) = (contains ordered k ≡ false) × IsOnce ordered

retain-left :
    (runtimes left : List ℕ) (k : ℕ) (ordered : List ℕ)
    → ((j : ℕ) → contains left j ≡ not (j == k) && contains runtimes j)
    → contains ordered k ≡ false
    → retain (contains left) ordered ≡ retain (contains runtimes) ordered
unfolding contains
retain-left runtimes left k [] h absent = refl
retain-left runtimes left k (x ∷ ordered) h absent =
    let rest = retain-left runtimes left k ordered h (ground (arith, absent)) in
    let same : contains left x ≡ contains runtimes x = ground (arith, h x, absent) in
    rw (same, rest) refl

types-push_report :
    (s : Option RuntimeShutdownReport) (reports : List RuntimeShutdownReport)
    → types (push_report s reports) ≡ types (push_report s []) ++ types reports
unfolding push_report
types-push_report none reports = refl
types-push_report (some report) reports = refl

report_first :
    (b : Bool) (k : ℕ) (xs ys : List ℕ)
    → (if b then k ∷ [] else []) ++ (xs ++ ys) ≡ (if b then k ∷ xs else xs) ++ ys
report_first true k xs ys = refl
report_first false k xs ys = refl

count-IsOnce : (ordered : List ℕ) → ((k : ℕ) → count k ordered ≤ 1) → IsOnce ordered
unfolding contains
count-IsOnce [] h = _
count-IsOnce (x ∷ ordered) h =
    (ground (arith, contains-count ordered x, h x), count-IsOnce ordered (λ k. ground (arith, h k)))

module _ (sort_names : List ℕ → List ℕ) (meets : ℕ → ℕ → Meeting) where
  shut_stages-ShutsAll :
      (r : RuntimeRegistry) (deadline now : ℕ) (ordered : List ℕ)
      → r.shutting_down ≡ true
      → contains ordered main ≡ false
      → IsOnce ordered
      → ShutsAll r ordered (shut_stages sort_names meets r deadline now ordered)
  unfolding shut_stages contains
  shut_stages-ShutsAll r deadline now [] down no_main once =
      let h = prepare_main_shutdown-StopsMain sort_names meets r (deadline - now) down in
      record {
        reported = h.report;
        left = λ j. ap (λ xs. contains xs j) h.kept.runtimes ∙ ground arith;
        shut = h.kept.shut;
        closed = λ j registered stage.
            let eq : j ≡ main = ground (arith, stage) in
            let s = prepare_main_shutdown sort_names meets r (deadline - now) in
            subst (Shut s.1) (sym eq) (h.closed (ap (contains r.runtimes) (sym eq) ∙ registered));
        failed = h.kept.failed;
        shutting = h.kept.shutting;
      }
  shut_stages-ShutsAll r deadline now (k ∷ ordered) down no_main once =
      let timeout = stage_timeout deadline now (length (k ∷ ordered) + 1) in
      let s = shutdown_runtime sort_names meets r k timeout in
      let h = shutdown_runtime-Stops sort_names meets r k timeout down in
      let rest = shut_stages sort_names meets s.1 deadline (time_after now s.0) ordered in
      let ih =
        shut_stages-ShutsAll s.1 deadline (time_after now s.0) ordered h.shutting
          (ground (arith, no_main)) once.1 in
      let main_left : contains s.1.runtimes main ≡ contains r.runtimes main =
        ground (arith, h.left main, no_main) in
      record {
        reported =
            types-push_report s.0 rest.0
            ∙ ap₂ ◌++◌ h.report ih.reported
            ∙ ap₂
                (λ xs (b : Bool).
                  (if contains r.runtimes k then k ∷ [] else [])
                  ++ (xs ++ (if b then main ∷ [] else [])))
                (retain-left r.runtimes s.1.runtimes k ordered h.left once.0) main_left
            ∙ report_first (contains r.runtimes k) k (retain (contains r.runtimes) ordered)
                (if contains r.runtimes main then main ∷ [] else []);
        left = λ j. ih.left j ∙ ground (arith, h.left j);
        shut = λ j e. ih.shut j (h.shut j e);
        closed = λ j registered stage. elim (Bool-cases (j == k)) [
          | inl here ↦
              let eq : j ≡ k = ground (arith, here) in
              ih.shut j (
                subst (Shut s.1) (sym eq)
                  (h.closed (ap (contains r.runtimes) (sym eq) ∙ registered)))
          | inr away ↦
              ih.closed j (h.left j ∙ ground (arith, away, registered))
                (ground (arith, away, stage))
        ];
        failed = λ e. ih.failed (h.failed e);
        shutting = ih.shutting;
      }

-- After a shutdown: `reported` has the reports, in the order of the stages with the main runtime last,
-- `shut` that every runtime is shut, and `left` that only the main one is still registered.
pub record IsDown (r : RuntimeRegistry) (ordered : List ℕ)
    (s : List RuntimeShutdownReport × RuntimeRegistry) : Type 0 where
  pub reported :
      types s.0
      ≡ retain (contains r.runtimes) ordered ++ (if contains r.runtimes main then main ∷ [] else [])
  pub shut : (k : ℕ) → contains r.runtimes k ≡ true → Shut s.1 k
  pub left : (k : ℕ) → contains s.1.runtimes k ≡ contains r.runtimes k && (k == main)
  pub failed : r.failed ≡ true → s.1.failed ≡ true
  pub shutting : s.1.shutting_down ≡ true

module _ (sort_names sort : List ℕ → List ℕ) (meets : ℕ → ℕ → Meeting)
    (sort_lem : (k : ℕ) (xs : List ℕ) → count k (sort xs) ≡ count k xs) where
  -- Whatever the rest of the program does meanwhile (tasks that end, panic or are started, runtimes
  -- that are to be registered), and whatever times out: if the sort keeps how often each runtime
  -- stands in a list, the shutdown reports each registered runtime that has a stage, in the order of
  -- the stages, and the main one last; every runtime that was registered then accepts no task and has
  -- its token cancelled; only the main one is still registered; and a failure is not forgotten.
  pub shutdown-IsDown :
      (r : RuntimeRegistry) (orders : List ℕ) (total_timeout now : ℕ)
      → IsDown r
          (stages sort orders r.runtimes)
          (shutdown sort_names meets sort r orders total_timeout now)
  unfolding shutdown
  shutdown-IsDown r orders total_timeout now =
      let ordered = stages sort orders r.runtimes in
      let counts = stages-once sort sort_lem orders r.runtimes in
      let no_main : contains ordered main ≡ false =
        ground (arith, contains-count ordered main, counts main) in
      let h =
        shut_stages-ShutsAll sort_names meets (record r { shutting_down = true })
          (now + total_timeout) now ordered refl no_main
          (count-IsOnce ordered (λ k. ground (arith, counts k))) in
      record {
        reported = h.reported;
        shut = λ k registered. h.closed k registered (
            ground
              (arith, registered, contains-count ordered k, contains-count r.runtimes k, counts k));
        left = λ k.
            h.left k
            ∙ ground (arith, contains-count ordered k, contains-count r.runtimes k, counts k);
        failed = h.failed;
        shutting = h.shutting;
      }
