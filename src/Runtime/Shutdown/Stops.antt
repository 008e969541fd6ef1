-- ===== src/Runtime/Shutdown/Stops.antt =====
-- base/src/utils/rt.rs: the shutdown of one runtime.
use pigs.Prelude.{
  ℕ, true, not, ◌&&◌, Option, none, some, List, [], ◌∷◌, ◌==◌, if◌then◌else◌, map, retain, ◌≡◌,
  refl, sym, ap, ◌∙◌, subst, arith, Bool-cases, inl, inr,
}
use pigs.Runtime.Stages.{main, contains}
use pigs.Runtime.Registry.{RuntimeRegistry, wait_tasks, handle, remove, happen_all}
use pigs.Runtime.Shutdown.{
  RuntimeShutdownReport, Meeting, active_names, stage_report, stop_runtime, shutdown_runtime,
  prepare_main_shutdown, main_report, push_report, report_of,
}
use pigs.Runtime.Registry.Keeps.{Shut, Keeps, same-Keeps, happen_all-Keeps, begun-Keeps}

abbrev pub types : List RuntimeShutdownReport → List ℕ
types reports = map (λ (report : RuntimeShutdownReport). report.runtime_type) reports

pub contains-without :
    (xs : List ℕ) (k j : ℕ)
    → contains (retain (λ x. not (x == k)) xs) j ≡ not (j == k) && contains xs j
unfolding contains
contains-without [] k j = ground arith
contains-without (x ∷ xs) k j = ground (arith, contains-without xs k j)

-- The shutdown of the runtime `k`: it has a report if it was registered, and is then shut and
-- registered no more.
pub record Stops (r : RuntimeRegistry) (k : ℕ) (s : Option RuntimeShutdownReport × RuntimeRegistry)
    : Type 0 where
  pub report : types (push_report s.0 []) ≡ (if contains r.runtimes k then k ∷ [] else [])
  pub left : (j : ℕ) → contains s.1.runtimes j ≡ not (j == k) && contains r.runtimes j
  pub shutting : s.1.shutting_down ≡ true
  pub shut : (j : ℕ) → Shut r j → Shut s.1 j
  pub closed : contains r.runtimes k ≡ true → Shut s.1 k
  pub failed : r.failed ≡ true → s.1.failed ≡ true

module _ (sort_names : List ℕ → List ℕ) where
  stop_runtime-registered :
      (r : RuntimeRegistry) (k : ℕ) (met : Meeting)
      → contains r.runtimes k ≡ true
      → let r1 = happen_all (remove r k) met.stopping in
        stop_runtime sort_names r k met ≡ (
          some (
              stage_report sort_names k met
                (active_names sort_names (r.entries k).tasks)
                (r1.entries k).tasks),
          r1,
        )
  unfolding stop_runtime
  stop_runtime-registered r k met h = simp h

  -- A runtime that waits for its tasks is still registered, and stops.
  stop_runtime-Stops :
      (r r1 : RuntimeRegistry) (k : ℕ) (met : Meeting)
      → Keeps r r1
      → Shut r1 k
      → contains r.runtimes k ≡ true
      → Stops r k (stop_runtime sort_names r1 k met)
  unfolding remove push_report stage_report report_of handle
  stop_runtime-Stops r r1 k met kept closed registered =
      let still : contains r1.runtimes k ≡ true =
        ap (λ xs. contains xs k) kept.runtimes ∙ registered in
      let removed = happen_all-Keeps (remove r1 k) met.stopping kept.shutting in
      subst (Stops r k) (sym (stop_runtime-registered r1 k met still)) (record {
        report = rw registered refl;
        left = λ j.
            ap (λ xs. contains xs j) removed.runtimes
            ∙ contains-without r1.runtimes k j
            ∙ ap (λ xs. not (j == k) && contains xs j) kept.runtimes;
        shutting = removed.shutting;
        shut = λ j h. removed.shut j (kept.shut j h);
        closed = λ h. removed.shut k closed;
        failed = λ h. removed.failed (kept.failed h);
      })

module _ (sort_names : List ℕ → List ℕ) (meets : ℕ → ℕ → Meeting) where
  pub shutdown_runtime-Stops :
      (r : RuntimeRegistry) (k timeout : ℕ)
      → r.shutting_down ≡ true
      → Stops r k (shutdown_runtime sort_names meets r k timeout)
  unfolding shutdown_runtime push_report
  shutdown_runtime-Stops r k timeout down = elim (Bool-cases (contains r.runtimes k)) [
    | inl registered ↦
        let met = meets k timeout in
        let (kept, closed) = begun-Keeps r k met.waiting down in
        let r1 = wait_tasks r k met.waiting in
        let same : shutdown_runtime sort_names meets r k timeout
            ≡ stop_runtime sort_names r1 k met =
          simp registered in
        subst (Stops r k) (sym same)
          (stop_runtime-Stops sort_names r r1 k met kept closed registered)
    | inr absent ↦
        let same : shutdown_runtime sort_names meets r k timeout ≡ (none, r) = simp absent in
        subst (Stops r k) (sym same) (record {
          report = rw absent refl;
          left = λ j. elim (Bool-cases (j == k)) [
            | inl here ↦
                let eq : j ≡ k = ground (arith, here) in
                subst (λ i. contains r.runtimes i ≡ not (i == k) && contains r.runtimes i) (sym eq)
                  (ground (arith, absent))
            | inr away ↦ rw away refl
          ];
          shutting = down;
          shut = λ j h. h;
          closed = λ h. absurd (ground (arith, h, absent));
          failed = λ h. h;
        })
  ]

  -- The main runtime is reported too, and stays registered.
  pub record StopsMain (r : RuntimeRegistry) (s : Option RuntimeShutdownReport × RuntimeRegistry)
      : Type 0 where
    pub report : types (push_report s.0 []) ≡ (if contains r.runtimes main then main ∷ [] else [])
    pub kept : Keeps r s.1
    pub closed : contains r.runtimes main ≡ true → Shut s.1 main

  pub prepare_main_shutdown-StopsMain :
      (r : RuntimeRegistry) (timeout : ℕ)
      → r.shutting_down ≡ true
      → StopsMain r (prepare_main_shutdown sort_names meets r timeout)
  unfolding prepare_main_shutdown push_report main_report report_of
  prepare_main_shutdown-StopsMain r timeout down = elim (Bool-cases (contains r.runtimes main)) [
    | inl registered ↦
        let met = meets main timeout in
        let r1 = wait_tasks r main met.waiting in
        let (kept, closed) = begun-Keeps r main met.waiting down in
        let same : prepare_main_shutdown sort_names meets r timeout
            ≡ (some (main_report sort_names met (r1.entries main).tasks), r1) =
          simp registered in
        subst (StopsMain r) (sym same)
          (record { report = rw registered refl; kept = kept; closed = λ h. closed })
    | inr absent ↦
        let same : prepare_main_shutdown sort_names meets r timeout ≡ (none, r) = simp absent in
        subst (StopsMain r) (sym same) (record {
          report = rw absent refl;
          kept = same-Keeps r down;
          closed = λ h. absurd (ground (arith, h, absent));
        })
  ]
