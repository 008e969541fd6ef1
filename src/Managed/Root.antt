-- ===== src/Managed/Root.antt =====
-- base/src/net/rw.rs: `run_managed_packet_io`, the root task of an endpoint.
use pigs.Prelude.{ℕ, ◌+◌, ◌-◌, ◌%◌, ◌^◌, Bool, true, false, List, [], ◌∷◌, ◌==◌, if◌then◌else◌}
use pigs.Managed.Report.{ManagedTaskReport, ProtocolJoined, plus, record_protocol_join, no_tasks}
pub mod Joins
mod Tests

-- `protocol_tasks` is the number of tasks in the `JoinSet`.
pub record Root : Type 0 where
  pub report : ManagedTaskReport
  pub protocol_tasks : ℕ
  pub watch_external_cancel : Bool
  pub cancel : Bool

pub data Event : Type 0 where
  external_cancelled : Event
  joined : ProtocolJoined → Event

-- The tasks for the listener and the socket that the endpoint has.
unfoldable pub spawned : (tcp_listener udp_socket : Bool) → ℕ
spawned tcp_listener udp_socket = (if tcp_listener then 1 else 0) + (if udp_socket then 1 else 0)

unfoldable pub count_completed : Root → Root
count_completed r = record r {
  report = record (r.report) { completed = plus r.report.completed 1 };
}

unfoldable pub start : (tcp_listener udp_socket : Bool) → Root
start tcp_listener udp_socket =
    let r : Root = record {
      report = no_tasks;
      protocol_tasks = spawned tcp_listener udp_socket;
      watch_external_cancel = true;
      cancel = false;
    } in
    if r.protocol_tasks == 0 then count_completed r else r

-- A round of the `while`.
unfoldable pub join_round : Root → Event → Root
join_round r external_cancelled =
    if r.watch_external_cancel then record r { watch_external_cancel = false; cancel = true } else r
join_round r (joined result) = record r {
  report = record_protocol_join r.report result;
  protocol_tasks = r.protocol_tasks - 1;
}

unfoldable pub run_managed_packet_io : Root → List Event → Root
run_managed_packet_io r [] = r
run_managed_packet_io r (event ∷ events) =
    let next = run_managed_packet_io (join_round r event) events in
    if r.protocol_tasks == 0 then r else next
