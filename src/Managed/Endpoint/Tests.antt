-- ===== src/Managed/Endpoint/Tests.antt =====
-- base/src/net/rw.rs: an endpoint on small inputs.
use pigs.Prelude.{
  ℕ, ◌+◌, ◌^◌, ◌<◌, true, false, some, [], ◌∷◌, ◌==◌, if◌then◌else◌, ◌≡◌, refl, arith,
}
use pigs.Managed.Report.{
  the_failed, told, Joined, returned, join_error, is_panic, report_of, incomplete, no_report,
  no_tasks, is_complete, merge, merge_network, record_join_error, close_report_result,
}
use pigs.Writer.{PacketWriter}
use pigs.Writer
use pigs.Managed.Endpoint.{
  Connection, Endpoint, contains, without, set_connection, record_task, hand_over, finalize_owner,
  awaited, close_connection, close_each, reap_finished_connections, writer_result,
  close_open_writer, close_writer, none_active, close_active, take_report, record_root, await_root,
  complete_close, close_and_wait,
}
use pigs.Managed.Endpoint.Ending.{IsOwned}
use pigs.Managed.Endpoint.Handing.{connections_due}
use pigs.Managed.Endpoint.Count.{IsMap}
use pigs.Managed.Endpoint.Total.{root_due, writer_due, IsClosed, close_and_wait-IsClosed}

program : Unit {0}
unfolding no_report no_tasks is_complete merge merge_network record_join_error close_report_result
    contains without set_connection record_task hand_over finalize_owner awaited close_connection
    close_each reap_finished_connections writer_result close_open_writer close_writer none_active
    close_active take_report record_root await_root complete_close close_and_wait Writer.new
    Writer.close
program = _

-- A registered connection whose task is going to give a result.
abbrev running : ℕ → Joined → Connection
running addr result = record {
  remote_addr = addr;
  cancel = false;
  task = some result;
  report = no_report;
  completed = false;
  failure_logged = false;
  owner_registered = true;
}

-- The connections 3 and 4.
abbrev pair : Endpoint
pair = record {
  writer = Writer.new;
  cancel = false;
  connecting_tcp_peers = 90 ∷ [];
  connections = λ id. if id == 3 then running 70 returned else running 80 (join_error is_panic);
  active_connections = 3 ∷ 4 ∷ [];
  completed_connection_report = no_report;
  next_connection_id = 5;
  root_task = some (report_of (record no_tasks { completed = 2 }));
  report = no_report;
  writer_closed = false;
  completed = false;
  failure_logged = false;
}

pair-IsOwned : IsOwned pair
pair-IsOwned id there = ground arith

pair-IsMap : IsMap pair
unfolding contains
pair-IsMap = record {
  owned = pair-IsOwned;
  no_task = λ id there over. absurd (ground arith);
  unique = (refl, (refl, _));
}

closes :
    (close_and_wait 1 pair false).0
    ≡ incomplete true
        (record { completed = 3; cancelled = 0; failed = 0; panicked = 1; remaining = 0 })
unfolding program
closes = refl

few :
    told the_failed no_report
      + 1
      + connections_due the_failed pair
      + root_due the_failed pair.root_task
    < 2 ^ 64
unfolding program
few = omega arith

close_and_wait-IsClosed_example :
    IsClosed the_failed
      (told the_failed no_report
        + writer_due the_failed pair true
        + connections_due the_failed pair
        + root_due the_failed pair.root_task)
      (close_and_wait 1 pair true).1
close_and_wait-IsClosed_example = close_and_wait-IsClosed the_failed 0 pair true pair-IsMap refl few
