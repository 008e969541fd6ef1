-- ===== src/Runtime/Shutdown/Budget.antt =====
-- base/src/utils/rt.rs: how the shutdown divides its time among the stages.
use pigs.Prelude.{
  ℕ, suc, ◌+◌, ◌-◌, ◌*◌, ◌/◌, ◌%◌, ◌^◌, ◌≤◌, ◌<◌, true, false, not, ◌&&◌, ◌||◌, Option, none, some,
  List, [], ◌∷◌, ◌==◌, ltb, if_intro, length, ◌≡◌, refl, sym, subst, arith,
}
use native.Mathlib.Nat.{
  div-mul-le_self, le-div_iff_mul-le, mul-le-mul_right, mod-eq_of_lt, div-le_self,
}
use pigs.Runtime.{ShutdownOutcome}
use pigs.Runtime.Stages.{main, contains, stages}
use pigs.Runtime.Registry.{RuntimeRegistry, wait_tasks, happen_all, remove}
use pigs.Runtime.Shutdown.{
  RuntimeShutdownReport, Meeting, active_names, shutdown_runtime, stop_runtime,
  prepare_main_shutdown, shut_stages, shutdown, time_after, stage_timeout, push_report,
  stage_report, main_report, report_of, stage_outcome, main_outcome, is_timed_out, any_timed_out,
  none_remain,
}

abbrev pub total_elapsed : List RuntimeShutdownReport → ℕ
total_elapsed [] = 0
total_elapsed (report ∷ reports) = report.elapsed + total_elapsed reports

-- What a report says of its stage's time.
abbrev IsPrompt : Meeting → RuntimeShutdownReport → Type 0
IsPrompt met report =
    (report.elapsed ≡ met.elapsed) × (met.in_time ≡ true → is_timed_out report.outcome ≡ false)

abbrev Reports : Meeting → Option RuntimeShutdownReport → Type 0
Reports met none = Unit
Reports met (some report) = IsPrompt met report

stage_outcome-in_time :
    (met : Meeting) (remaining : List ℕ) (panicked : ℕ)
    → met.in_time ≡ true
    → is_timed_out (stage_outcome met remaining panicked) ≡ false
unfolding stage_outcome is_timed_out
stage_outcome-in_time met remaining panicked h = rw h (
    if_intro ((not met.joined || not (none_remain remaining)) || ltb 0 panicked)
      (λ (o : ShutdownOutcome). is_timed_out o ≡ false) refl refl)

main_outcome-in_time :
    (met : Meeting) (remaining : List ℕ) (panicked : ℕ)
    → met.in_time ≡ true
    → is_timed_out (main_outcome met remaining panicked) ≡ false
unfolding main_outcome is_timed_out
main_outcome-in_time met remaining panicked h = rw h (
    if_intro (none_remain remaining && (panicked == 0))
      (λ (o : ShutdownOutcome). is_timed_out o ≡ false) refl refl)

module _ (sort_names : List ℕ → List ℕ) where
  stop_runtime-Reports :
      (r : RuntimeRegistry) (k : ℕ) (met : Meeting)
      → Reports met (stop_runtime sort_names r k met).0
  unfolding stop_runtime stage_report report_of
  stop_runtime-Reports r k met =
      let tasks = ((happen_all (remove r k) met.stopping).entries k).tasks in
      if_intro (contains r.runtimes k)
        (λ (s : Option RuntimeShutdownReport × RuntimeRegistry). Reports met s.0)
        (refl, stage_outcome-in_time met (active_names sort_names tasks) tasks.panicked) _

module _ (sort_names : List ℕ → List ℕ) (meets : ℕ → ℕ → Meeting) where
  shutdown_runtime-Reports :
      (r : RuntimeRegistry) (k timeout : ℕ)
      → Reports (meets k timeout) (shutdown_runtime sort_names meets r k timeout).0
  unfolding shutdown_runtime
  shutdown_runtime-Reports r k timeout =
      let met = meets k timeout in
      if_intro (contains r.runtimes k)
        (λ (s : Option RuntimeShutdownReport × RuntimeRegistry). Reports met s.0)
        (stop_runtime-Reports sort_names (wait_tasks r k met.waiting) k met) _

  prepare_main_shutdown-Reports :
      (r : RuntimeRegistry) (timeout : ℕ)
      → Reports (meets main timeout) (prepare_main_shutdown sort_names meets r timeout).0
  unfolding prepare_main_shutdown main_report report_of
  prepare_main_shutdown-Reports r timeout =
      let met = meets main timeout in
      let tasks = ((wait_tasks r main met.waiting).entries main).tasks in
      if_intro (contains r.runtimes main)
        (λ (s : Option RuntimeShutdownReport × RuntimeRegistry). Reports met s.0)
        (refl, main_outcome-in_time met (active_names sort_names tasks) tasks.panicked) _

stage_timeout-share :
    (deadline now left : ℕ)
    → 0 < left
    → left < 2 ^ 32
    → stage_timeout deadline now left ≡ (deadline - now) / left
unfolding stage_timeout
stage_timeout-share deadline now left positive small =
    let same : left % 2 ^ 32 ≡ left = mod-eq_of_lt small in rw same (ground (arith, positive))

-- The stages left keep their share when this one takes no more than its part.
keeps_share :
    (share remaining left elapsed : ℕ)
    → share * (left + 1) ≤ remaining
    → elapsed ≤ remaining / (left + 1)
    → share * left ≤ remaining - elapsed
keeps_share share remaining left elapsed enough h =
    let part = remaining / (left + 1) in
    let whole = div-mul-le_self remaining (left + 1) in
    let at_least : share ≤ part =
      (le-div_iff_mul-le {k = left + 1} {x = share} {y = remaining} (omega arith)).1 enough in
    let product : share * left ≤ part * left = mul-le-mul_right left at_least in
    omega (arith, whole, product, h)

-- No stage timed out, and all of them ended by the deadline.
pub record IsTimely (remaining : ℕ) (reports : List RuntimeShutdownReport) : Type 0 where
  pub in_time : any_timed_out reports ≡ false
  pub in_all : total_elapsed reports ≤ remaining

-- The time that a stage took.
abbrev taken : Option RuntimeShutdownReport → ℕ
taken none = 0
taken (some report) = report.elapsed

time_after-taken : (now : ℕ) (s : Option RuntimeShutdownReport) → time_after now s ≡ now + taken s
unfolding time_after
time_after-taken now none = omega arith
time_after-taken now (some report) = refl

taken-prompt :
    (met : Meeting) (timeout : ℕ) (s : Option RuntimeShutdownReport)
    → Reports met s
    → met.elapsed ≤ timeout
    → taken s ≤ timeout
taken-prompt met timeout none h prompt = omega arith
taken-prompt met timeout (some report) h prompt = omega (arith, h.0, prompt)

push-IsTimely :
    (met : Meeting) (remaining : ℕ) (s : Option RuntimeShutdownReport)
    (reports : List RuntimeShutdownReport)
    → Reports met s
    → met.in_time ≡ true
    → taken s ≤ remaining
    → IsTimely (remaining - taken s) reports
    → IsTimely remaining (push_report s reports)
unfolding push_report any_timed_out
push-IsTimely met remaining none reports h in_time fits rest = record {
  in_time = rest.in_time;
  in_all = omega (arith, rest.in_all);
}
push-IsTimely met remaining (some report) reports h in_time fits rest = record {
  in_time = rw (h.1 in_time, rest.in_time) refl;
  in_all = omega (arith, rest.in_all, fits);
}

module _ (sort_names : List ℕ → List ℕ) (meets : ℕ → ℕ → Meeting) (share : ℕ)
    (prompt : (k timeout : ℕ) → (meets k timeout).elapsed ≤ timeout)
    (in_time : (k timeout : ℕ) → share ≤ timeout → (meets k timeout).in_time ≡ true) where
  shut_stages-IsTimely :
      (r : RuntimeRegistry) (deadline now : ℕ) (ordered : List ℕ)
      → share * (length ordered + 1) ≤ deadline - now
      → length ordered + 1 < 2 ^ 32
      → IsTimely (deadline - now) (shut_stages sort_names meets r deadline now ordered).0
  unfolding shut_stages any_timed_out
  shut_stages-IsTimely r deadline now [] enough small =
      let remaining = deadline - now in
      let s = prepare_main_shutdown sort_names meets r remaining in
      let met = meets main remaining in
      let h = prepare_main_shutdown-Reports sort_names meets r remaining in
      push-IsTimely met remaining s.0 [] h (in_time main remaining (omega (arith, enough)))
        (taken-prompt met remaining s.0 h (prompt main remaining))
        (record { in_time = refl; in_all = omega arith })
  shut_stages-IsTimely r deadline now (k ∷ ordered) enough small =
      let left = suc (length ordered) in
      let same : left ≡ length ordered + 1 = omega arith in
      let remaining = deadline - now in
      let timeout = stage_timeout deadline now (left + 1) in
      let part : timeout ≡ remaining / (left + 1) =
        stage_timeout-share deadline now (left + 1) (omega arith) (omega (arith, small)) in
      let at_least : share ≤ remaining / (left + 1) =
        (le-div_iff_mul-le {k = left + 1} {x = share} {y = remaining} (omega arith)).1 enough in
      let s = shutdown_runtime sort_names meets r k timeout in
      let met = meets k timeout in
      let h = shutdown_runtime-Reports sort_names meets r k timeout in
      let short : taken s.0 ≤ timeout = taken-prompt met timeout s.0 h (prompt k timeout) in
      let fits : taken s.0 ≤ remaining =
        omega (arith, short, part, div-le_self remaining (left + 1)) in
      let later : deadline - time_after now s.0 ≡ remaining - taken s.0 =
        omega (arith, time_after-taken now s.0) in
      let kept = keeps_share share remaining left (taken s.0) enough (omega (arith, short, part)) in
      let others = shut_stages sort_names meets s.1 deadline (time_after now s.0) ordered in
      let rest =
        shut_stages-IsTimely s.1 deadline (time_after now s.0) ordered
          (subst (λ n. share * n ≤ deadline - time_after now s.0) same
            (subst (λ n. share * left ≤ n) (sym later) kept))
          (omega (arith, small)) in
      push-IsTimely met remaining s.0 others.0 h (in_time k timeout (omega (arith, at_least, part)))
        fits (subst (λ n. IsTimely n others.0) later rest)

-- If no stage takes longer than its timeout, and every runtime's tasks end within an equal share of
-- the total time, then no stage of the shutdown times out, and all stages together take no more than
-- the total time. The share is the total time divided by the number of stages, the main runtime's
-- included; a stage that ends early leaves its time to the others. There are fewer than 2^32 - 1
-- stages before the main runtime's.
pub shutdown-IsTimely :
    (sort_names sort : List ℕ → List ℕ) (meets : ℕ → ℕ → Meeting) (r : RuntimeRegistry)
    (orders : List ℕ) (total_timeout now : ℕ)
    → let count = length (stages sort orders r.runtimes) + 1 in
      count < 2 ^ 32
      → ((k timeout : ℕ) → (meets k timeout).elapsed ≤ timeout)
      → ((k timeout : ℕ) → total_timeout / count ≤ timeout → (meets k timeout).in_time ≡ true)
      → IsTimely total_timeout (shutdown sort_names meets sort r orders total_timeout now).0
unfolding shutdown
shutdown-IsTimely sort_names sort meets r orders total_timeout now small prompt in_time =
    let ordered = stages sort orders r.runtimes in
    let count = length ordered + 1 in
    let span : now + total_timeout - now ≡ total_timeout = omega arith in
    subst (λ n. IsTimely n (shutdown sort_names meets sort r orders total_timeout now).0) span
      (shut_stages-IsTimely sort_names meets (total_timeout / count) prompt in_time
        (record r { shutting_down = true }) (now + total_timeout) now ordered
        (subst (λ n. total_timeout / count * count ≤ n) (sym span)
          (div-mul-le_self total_timeout count))
        small)
