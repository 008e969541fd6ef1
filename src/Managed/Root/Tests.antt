-- ===== src/Managed/Root/Tests.antt =====
-- base/src/net/rw.rs: the root task on small inputs.
use pigs.Prelude.{◌+◌, ◌^◌, ◌<◌, true, false, List, [], ◌∷◌, ◌≡◌, refl, arith}
use pigs.Managed.Report.{
  the_completed, the_cancelled, told_by_tasks, report_of, no_report_of, is_panic,
  record_protocol_join, merge_tasks, no_tasks,
}
use pigs.Managed.Root.{
  Event, external_cancelled, joined, spawned, count_completed, start, join_round,
  run_managed_packet_io,
}
use pigs.Managed.Root.Joins.{joined_due, Joins, run_managed_packet_io-Joins}

program : Unit {0}
unfolding record_protocol_join merge_tasks no_tasks spawned count_completed start join_round
    run_managed_packet_io joined_due
program = _

abbrev events : List Event
events =
    external_cancelled
    ∷ joined (
        report_of
          (record { completed = 2; cancelled = 1; failed = 0; panicked = 0; remaining = 0 }))
    ∷ joined (no_report_of is_panic)
    ∷ []

stops : told_by_tasks the_cancelled (run_managed_packet_io (start true true) events).report ≡ 1
unfolding program
stops = refl

idle : told_by_tasks the_completed (run_managed_packet_io (start false false) events).report ≡ 1
unfolding program
idle = refl

few :
    told_by_tasks the_cancelled (start true true).report
      + joined_due the_cancelled (spawned true true) events
    < 2 ^ 64
unfolding program
few = omega arith

run_managed_packet_io-Joins_example :
    Joins the_cancelled
      (start true true)
      (spawned true true)
      events
      (run_managed_packet_io (start true true) events)
run_managed_packet_io-Joins_example = run_managed_packet_io-Joins the_cancelled true true events few
