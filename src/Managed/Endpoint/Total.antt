-- ===== src/Managed/Endpoint/Total.antt =====
-- base/src/net/rw.rs: the report of a closed endpoint tells of every task once.
use pigs.Prelude.{
  ℕ, suc, ◌+◌, ◌^◌, ◌<◌, ◌≤◌, Bool, true, false, not, ◌&&◌, Option, none, some, [], ◌≡◌, refl, sym,
  ap, subst, arith, Bool-cases, inl, inr,
}
use pigs.Managed.Report.{
  Field, the_completed, the_cancelled, the_failed, the_panicked, the_remaining, told, told_by_tasks,
  error_due, NetworkCloseReport, is_panic, is_cancelled, other_error, ProtocolJoined, report_of,
  no_report_of, merge, merge_network, record_join_error, close_report_result,
}
use pigs.Managed.Endpoint.{
  Endpoint, writer_result, close_open_writer, close_writer, close_active, take_report, record_root,
  await_root, complete_close, close_and_wait,
}
use pigs.Managed.Endpoint.Ending.{close_active-ends}
use pigs.Managed.Endpoint.Handing.{connections_due, sum, due, merge_network-told}
use pigs.Managed.Endpoint.Count.{Counted, IsMap, close_each-Counted}

abbrev pub root_due : Field → Option ProtocolJoined → ℕ
root_due field none = 0
root_due field (some (report_of r)) = told_by_tasks field r
root_due field (some (no_report_of error)) = error_due field error

-- A failure of the writer's close is one of the failed.
abbrev failure_due : Field → Bool → ℕ
failure_due the_failed true = 1
failure_due field failed = 0

abbrev pub writer_due : Field → Endpoint → Bool → ℕ
writer_due field e failed = failure_due field (not e.writer_closed && failed)

record_root-told :
    (field : Field) (o : Option ProtocolJoined) (r : NetworkCloseReport)
    → told field r + root_due field o < 2 ^ 64
    → told field (record_root o r) ≡ told field r + root_due field o
unfolding record_root merge record_join_error
record_root-told the_completed none r h = omega arith
record_root-told the_completed (some (report_of tasks)) r h = omega arith
record_root-told the_completed (some (no_report_of is_panic)) r h = omega arith
record_root-told the_completed (some (no_report_of is_cancelled)) r h = omega arith
record_root-told the_completed (some (no_report_of other_error)) r h = omega arith
record_root-told the_cancelled none r h = omega arith
record_root-told the_cancelled (some (report_of tasks)) r h = omega arith
record_root-told the_cancelled (some (no_report_of is_panic)) r h = omega arith
record_root-told the_cancelled (some (no_report_of is_cancelled)) r h = omega arith
record_root-told the_cancelled (some (no_report_of other_error)) r h = omega arith
record_root-told the_failed none r h = omega arith
record_root-told the_failed (some (report_of tasks)) r h = omega arith
record_root-told the_failed (some (no_report_of is_panic)) r h = omega arith
record_root-told the_failed (some (no_report_of is_cancelled)) r h = omega arith
record_root-told the_failed (some (no_report_of other_error)) r h = omega arith
record_root-told the_panicked none r h = omega arith
record_root-told the_panicked (some (report_of tasks)) r h = omega arith
record_root-told the_panicked (some (no_report_of is_panic)) r h = omega arith
record_root-told the_panicked (some (no_report_of is_cancelled)) r h = omega arith
record_root-told the_panicked (some (no_report_of other_error)) r h = omega arith
record_root-told the_remaining none r h = omega arith
record_root-told the_remaining (some (report_of tasks)) r h = omega arith
record_root-told the_remaining (some (no_report_of is_panic)) r h = omega arith
record_root-told the_remaining (some (no_report_of is_cancelled)) r h = omega arith
record_root-told the_remaining (some (no_report_of other_error)) r h = omega arith

close_active-Counted :
    (field : Field) (fuel : ℕ) (e : Endpoint)
    → IsMap e
    → connections_due field e < 2 ^ 64
    → Counted field e (close_active (suc fuel) e)
      × ((close_active (suc fuel) e).active_connections ≡ [])
close_active-Counted field fuel e h small =
    let ends = close_active-ends fuel e h.owned in
    let counted =
      close_each-Counted field e e.active_connections h h.unique (λ j there. there) small in
    (subst (Counted field e) (sym ends.1) counted, ends.0)

-- The report after the connections and the root task.
after_writer :
    (field : Field) (fuel : ℕ) (e : Endpoint)
    → IsMap e
    → told field e.report + connections_due field e + root_due field e.root_task < 2 ^ 64
    → told field (await_root (take_report (close_active (suc fuel) e))).report
      ≡ told field e.report + connections_due field e + root_due field e.root_task
unfolding await_root take_report
after_writer field fuel e h small =
    let e2 = close_active (suc fuel) e in
    let (counted, no_more) = close_active-Counted field fuel e h (omega arith) in
    let same_due : connections_due field e2 ≡ connections_due field e = counted.same_due in
    let crep : connections_due field e2 ≡ told field e2.completed_connection_report + 0 =
      ap
        (λ l.
          told field e2.completed_connection_report + sum (λ id. due field (e2.connections id)) l)
        no_more in
    let report = ap (told field) counted.same_report in
    let root = ap (root_due field) counted.same_root in
    let merged = merge_network-told field e2.report e2.completed_connection_report (omega arith) in
    let rooted =
      record_root-told field e2.root_task (merge_network e2.report e2.completed_connection_report)
        (omega arith) in
    omega arith

-- The writer's part of the closing.
record WriterDone (field : Field) (e : Endpoint) (failed : Bool) (e1 : Endpoint) : Type 0 where
  is_map : IsMap e1
  same_due : connections_due field e1 ≡ connections_due field e
  same_root : e1.root_task ≡ e.root_task
  counted : told field e1.report ≡ told field e.report + writer_due field e failed

writer_result-told :
    (field : Field) (failed : Bool) (r : NetworkCloseReport)
    → told field r + 1 < 2 ^ 64
    → told field (writer_result failed r) ≡ told field r + failure_due field failed
unfolding writer_result
writer_result-told the_completed false r h = omega arith
writer_result-told the_completed true r h = omega arith
writer_result-told the_cancelled false r h = omega arith
writer_result-told the_cancelled true r h = omega arith
writer_result-told the_failed false r h = omega arith
writer_result-told the_failed true r h = omega arith
writer_result-told the_panicked false r h = omega arith
writer_result-told the_panicked true r h = omega arith
writer_result-told the_remaining false r h = omega arith
writer_result-told the_remaining true r h = omega arith

close_writer-Done :
    (field : Field) (e : Endpoint) (failed : Bool)
    → IsMap e
    → told field e.report + 1 < 2 ^ 64
    → WriterDone field e failed (close_writer (record e { cancel = true }) failed)
unfolding close_writer close_open_writer
close_writer-Done field e failed h small =
    let e0 : Endpoint = record e { cancel = true } in
    elim (Bool-cases e.writer_closed) [
      | inl over ↦
          let eq : close_writer e0 failed ≡ e0 = simp over in
          subst (WriterDone field e failed) (sym eq) (record {
            is_map = record { owned = h.owned; no_task = h.no_task; unique = h.unique };
            same_due = refl;
            same_root = refl;
            counted = ground arith;
          })
      | inr fresh ↦
          let eq : close_writer e0 failed ≡ close_open_writer e0 failed = simp fresh in
          let one = writer_result-told field failed e.report small in
          subst (WriterDone field e failed) (sym eq) (record {
            is_map = record { owned = h.owned; no_task = h.no_task; unique = h.unique };
            same_due = refl;
            same_root = refl;
            counted = ground (arith, one);
          })
    ]

-- The endpoint is closed: its map is empty, no root task is left, and the count of its report is as
-- given.
pub record IsClosed (field : Field) (total : ℕ) (e : Endpoint) : Type 0 where
  pub over : e.completed ≡ true
  pub no_root : e.root_task ≡ none
  pub no_connection : e.active_connections ≡ []
  pub counted : told field e.report ≡ total

close-eq :
    (fuel : ℕ) (e : Endpoint) (failed : Bool)
    → e.completed ≡ false
    → close_and_wait fuel e failed
      ≡ complete_close (
          await_root
            (take_report (close_active fuel (close_writer (record e { cancel = true }) failed))))
unfolding close_and_wait
close-eq fuel e failed fresh = simp fresh

-- If the tasks of the connections and the root task come back when they are awaited, the first
-- closing of an endpoint whose map is well kept comes to an end with one unit of fuel or more: it is
-- completed, no root task and no connection is left. Each count of its report (completed, cancelled,
-- failed, panicked and remaining) is then what it was, with one more failed for an error of the
-- writer, what the connections' reports and tasks add to that count, and what the root task reports
-- for it, if that is below 2^64: none is lost or counted twice.
pub close_and_wait-IsClosed :
    (field : Field) (fuel : ℕ) (e : Endpoint) (failed : Bool)
    → IsMap e
    → e.completed ≡ false
    → told field e.report + 1 + connections_due field e + root_due field e.root_task < 2 ^ 64
    → IsClosed field
        (told field e.report
          + writer_due field e failed
          + connections_due field e
          + root_due field e.root_task)
        (close_and_wait (suc fuel) e failed).1
unfolding complete_close await_root take_report
close_and_wait-IsClosed field fuel e failed h fresh small =
    let w = close_writer-Done field e failed h (omega arith) in
    let e1 = close_writer (record e { cancel = true }) failed in
    let at_most : writer_due field e failed ≤ 1 = ground arith in
    let root = ap (root_due field) w.same_root in
    let due = w.same_due in
    let count = w.counted in
    let rest = after_writer field fuel e1 w.is_map (omega arith) in
    let (same, no_more) = close_active-Counted field fuel e1 w.is_map (omega arith) in
    subst
      (λ p.
        IsClosed field
          (told field e.report
            + writer_due field e failed
            + connections_due field e
            + root_due field e.root_task)
          p.1)
      (sym (close-eq (suc fuel) e failed fresh))
      (record { over = refl; no_root = refl; no_connection = no_more; counted = omega arith })

close-over :
    (fuel : ℕ) (e : Endpoint) (failed : Bool)
    → e.completed ≡ true
    → close_and_wait fuel e failed ≡ (close_report_result e.report false, e)
unfolding close_and_wait
close-over fuel e failed over = simp over

close-completed :
    (fuel : ℕ) (e : Endpoint) (failed : Bool) → (close_and_wait fuel e failed).1.completed ≡ true
unfolding complete_close
close-completed fuel e failed = elim (Bool-cases e.completed) [
  | inl over ↦ subst (λ p. p.1.completed ≡ true) (sym (close-over fuel e failed over)) over
  | inr fresh ↦ subst (λ p. p.1.completed ≡ true) (sym (close-eq fuel e failed fresh)) refl
]

-- A second closing tells the report of the first one, does not ask for a failure to be logged again,
-- and changes nothing.
pub close_and_wait-again :
    (fuel fuel2 : ℕ) (e : Endpoint) (failed failed2 : Bool)
    → let first = (close_and_wait fuel e failed).1 in
      close_and_wait fuel2 first failed2 ≡ (close_report_result first.report false, first)
close_and_wait-again fuel fuel2 e failed failed2 =
    close-over fuel2 (close_and_wait fuel e failed).1 failed2 (close-completed fuel e failed)
