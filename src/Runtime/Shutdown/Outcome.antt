-- ===== src/Runtime/Shutdown/Outcome.antt =====
-- base/src/utils/rt.rs: what the outcome of the application's shutdown says.
use pigs.Prelude.{
  ℕ, ◌+◌, ◌-◌, Bool, true, false, Option, none, some, List, [], ◌∷◌, ◌++◌, if◌then◌else◌, if_intro,
  length, count, retain, ◌≡◌, refl, ap, ◌∙◌, arith, Bool-cases, inl, inr, All,
}
use pigs.Runtime.{TaskState, ShutdownOutcome, graceful, timed_out, incomplete}
use pigs.Runtime.Stages.{main, contains, stages}
use pigs.Runtime.Registry.{RuntimeRegistry, Happening, handle, wait_tasks, happen_all, remove}
use pigs.Runtime.Shutdown.{
  RuntimeShutdownReport, Meeting, active_names, shutdown_runtime, stop_runtime,
  prepare_main_shutdown, shut_stages, shutdown, time_after, stage_timeout, push_report,
  stage_report, main_report, report_of, stage_outcome, main_outcome, is_graceful, remaining_tasks,
  none_remain, all_graceful, total_outcome, take_main_runtime, order_shutdown,
}
use pigs.Runtime.Registry.Keeps.{Shut, happen_all-Keeps}
use pigs.Runtime.Shutdown.Stops.{types, contains-without}
use pigs.Runtime.Shutdown.Reports.{shutdown-IsDown}

-- No task of the runtime panicked, and none remained.
abbrev pub IsClean : RuntimeShutdownReport → Type 0
IsClean report = (report.panicked_tasks ≡ 0) × (report.remaining_tasks ≡ [])

abbrev Honest : RuntimeShutdownReport → Type 0
Honest report = is_graceful report.outcome ≡ true → IsClean report

retain-none : (names : List ℕ) → retain (λ name. false) names ≡ []
retain-none [] = refl
retain-none (name ∷ names) = retain-none names

stage_outcome-graceful :
    (met : Meeting) (remaining : List ℕ) (panicked : ℕ)
    → is_graceful (stage_outcome met remaining panicked) ≡ true
    → (panicked ≡ 0) × (remaining ≡ [])
unfolding stage_outcome is_graceful none_remain
stage_outcome-graceful met [] panicked h = (ground (arith, h), refl)
stage_outcome-graceful met (name ∷ names) panicked h = absurd (ground (arith, h))

main_outcome-graceful :
    (met : Meeting) (remaining : List ℕ) (panicked : ℕ)
    → is_graceful (main_outcome met remaining panicked) ≡ true
    → (panicked ≡ 0) × (remaining ≡ [])
unfolding main_outcome is_graceful none_remain
main_outcome-graceful met [] panicked h = (ground (arith, h), refl)
main_outcome-graceful met (name ∷ names) panicked h = absurd (ground (arith, h))

remaining_tasks-none :
    (outcome : ShutdownOutcome) (before remaining : List ℕ)
    → is_graceful outcome ≡ true
    → remaining ≡ []
    → remaining_tasks outcome before remaining ≡ []
unfolding remaining_tasks is_graceful
remaining_tasks-none graceful before remaining h e =
    ap (remaining_tasks graceful before) e ∙ retain-none before
remaining_tasks-none timed_out before remaining h e = absurd (ground (arith, h))
remaining_tasks-none incomplete before remaining h e = absurd (ground (arith, h))

module _ (sort_names : List ℕ → List ℕ) where
  stage_report-Honest :
      (k : ℕ) (met : Meeting) (before : List ℕ) (tasks : TaskState)
      → Honest (stage_report sort_names k met before tasks)
  unfolding stage_report report_of
  stage_report-Honest k met before tasks h =
      let remaining = active_names sort_names tasks in
      let (no_panic, nothing) = stage_outcome-graceful met remaining tasks.panicked h in
      (
        no_panic,
        remaining_tasks-none (stage_outcome met remaining tasks.panicked) before remaining h
            nothing,
      )

  main_report-Honest :
      (met : Meeting) (tasks : TaskState) → Honest (main_report sort_names met tasks)
  unfolding main_report report_of
  main_report-Honest met tasks h =
      main_outcome-graceful met (active_names sort_names tasks) tasks.panicked h

abbrev AllHonest : Option RuntimeShutdownReport × RuntimeRegistry → Type 0
AllHonest s = All Honest (push_report s.0 [])

push_report-All :
    (s : Option RuntimeShutdownReport) (reports : List RuntimeShutdownReport)
    → All Honest (push_report s [])
    → All Honest reports
    → All Honest (push_report s reports)
unfolding push_report
push_report-All none reports h rest = rest
push_report-All (some report) reports h rest = (h.0, rest)

module _ (sort_names : List ℕ → List ℕ) (meets : ℕ → ℕ → Meeting) where
  shutdown_runtime-AllHonest :
      (r : RuntimeRegistry) (k timeout : ℕ)
      → AllHonest (shutdown_runtime sort_names meets r k timeout)
  unfolding shutdown_runtime stop_runtime push_report
  shutdown_runtime-AllHonest r k timeout =
      let met = meets k timeout in
      let r1 = wait_tasks r k met.waiting in
      let r2 = happen_all (remove r1 k) met.stopping in
      if_intro (contains r.runtimes k) AllHonest
        (if_intro (contains r1.runtimes k) AllHonest
          (
            stage_report-Honest sort_names k met (active_names sort_names (r1.entries k).tasks)
                (r2.entries k).tasks,
            _,
          )
          _)
        _

  prepare_main_shutdown-AllHonest :
      (r : RuntimeRegistry) (timeout : ℕ)
      → AllHonest (prepare_main_shutdown sort_names meets r timeout)
  unfolding prepare_main_shutdown push_report
  prepare_main_shutdown-AllHonest r timeout =
      let met = meets main timeout in
      if_intro (contains r.runtimes main) AllHonest
        (main_report-Honest sort_names met ((wait_tasks r main met.waiting).entries main).tasks, _)
        _

  shut_stages-Honest :
      (r : RuntimeRegistry) (deadline now : ℕ) (ordered : List ℕ)
      → All Honest (shut_stages sort_names meets r deadline now ordered).0
  unfolding shut_stages
  shut_stages-Honest r deadline now [] = prepare_main_shutdown-AllHonest r (deadline - now)
  shut_stages-Honest r deadline now (k ∷ ordered) =
      let timeout = stage_timeout deadline now (length (k ∷ ordered) + 1) in
      let s = shutdown_runtime sort_names meets r k timeout in
      push_report-All s.0 (shut_stages sort_names meets s.1 deadline (time_after now s.0) ordered).0
        (shutdown_runtime-AllHonest r k timeout)
        (shut_stages-Honest s.1 deadline (time_after now s.0) ordered)

all_graceful-IsClean :
    (reports : List RuntimeShutdownReport)
    → All Honest reports
    → all_graceful reports ≡ true
    → All IsClean reports
unfolding all_graceful
all_graceful-IsClean [] h e = _
all_graceful-IsClean (report ∷ reports) h e =
    (h.0 (ground (arith, e)), all_graceful-IsClean reports h.1 (ground (arith, e)))

total_outcome-graceful :
    (failed : Bool) (reports : List RuntimeShutdownReport)
    → total_outcome failed reports ≡ graceful
    → (failed ≡ false) × (all_graceful reports ≡ true)
unfolding total_outcome
total_outcome-graceful failed reports h = (ground (arith, h), ground (arith, h))

-- The application has ended well.
pub record EndsWell (r : RuntimeRegistry) (ordered : List ℕ)
    (o : ShutdownOutcome × List RuntimeShutdownReport × RuntimeRegistry) : Type 0 where
  pub no_failure : r.failed ≡ false
  pub reported :
      types o.1
      ≡ retain (contains r.runtimes) ordered ++ (if contains r.runtimes main then main ∷ [] else [])
  pub clean : All IsClean o.1
  pub shut : (k : ℕ) → contains r.runtimes k ≡ true → Shut o.2 k
  pub left : (k : ℕ) → contains o.2.runtimes k ≡ false

module _ (sort_names sort : List ℕ → List ℕ) (meets : ℕ → ℕ → Meeting)
    (sort_lem : (k : ℕ) (xs : List ℕ) → count k (sort xs) ≡ count k xs) where
  -- If the sort keeps how often each runtime stands in a list, an application whose shutdown has the
  -- graceful outcome had no failure before, and has reported each registered runtime that has a
  -- stage, in the order of the stages, and the main one last; no task of theirs had panicked or
  -- remained at its report; every runtime that was registered accepts no task and has its token
  -- cancelled; and none is registered any more.
  pub order_shutdown-EndsWell :
      (stopping : List Happening) (r : RuntimeRegistry) (orders : List ℕ) (total_timeout now : ℕ)
      → let o = order_shutdown sort_names sort meets stopping r orders total_timeout now in
        o.0 ≡ graceful → EndsWell r (stages sort orders r.runtimes) o
  unfolding order_shutdown shutdown take_main_runtime remove handle
  order_shutdown-EndsWell stopping r orders total_timeout now e =
      let s = shutdown sort_names meets sort r orders total_timeout now in
      let h = shutdown-IsDown sort_names sort meets sort_lem r orders total_timeout now in
      let ordered = stages sort orders r.runtimes in
      let honest =
        shut_stages-Honest sort_names meets (record r { shutting_down = true })
          (now + total_timeout) now ordered in
      let kept = happen_all-Keeps (take_main_runtime s.1) stopping h.shutting in
      let last = happen_all (take_main_runtime s.1) stopping in
      let (unfailed, all) = total_outcome-graceful last.failed s.0 e in
      record {
        no_failure = elim (Bool-cases r.failed) [
          | inl failed ↦ absurd (ground (arith, kept.failed (h.failed failed), unfailed))
          | inr none_failed ↦ none_failed
        ];
        reported = h.reported;
        clean = all_graceful-IsClean s.0 honest all;
        shut = λ k registered. kept.shut k (h.shut k registered);
        left = λ k.
            ap (λ xs. contains xs k) kept.runtimes
            ∙ contains-without s.1.runtimes main k
            ∙ ground (arith, h.left k);
      }
