-- ===== src/Managed/Endpoint.antt =====
-- base/src/net/rw.rs: the closing of `ManagedPacketIo` and of its TCP connections.
use pigs.Prelude.{
  ℕ, zero, suc, ◌+◌, ◌%◌, ◌^◌, Bool, true, false, not, ◌&&◌, ◌||◌, Option, none, some, List, [],
  ◌∷◌, ◌==◌, if◌then◌else◌, retain, update,
}
use pigs.Managed.Report.{
  NetworkCloseReport, ManagedTaskReport, Joined, returned, returned_error, join_error,
  ProtocolJoined, report_of, no_report_of, CloseResult, plus, no_report, is_complete, merge,
  merge_network, record_join_error, close_report_result,
}
use pigs.Writer.{PacketWriter}
use pigs.Writer
pub mod Closing
pub mod Ending
pub mod Handing
pub mod Count
pub mod Total
mod Tests

-- One connection with its close state. `task` is what the task is going to give when it is awaited,
-- until then. A task that never comes back, with which the closing waits for ever, is left out.
pub record Connection : Type 0 where
  pub remote_addr : ℕ
  pub cancel : Bool
  pub task : Option Joined
  pub report : NetworkCloseReport
  pub completed : Bool
  pub failure_logged : Bool
  pub owner_registered : Bool

-- `connections` is the store of the shared connections, by number; `active_connections` are the
-- numbers that the endpoint's map holds.
pub record Endpoint : Type 0 where
  pub writer : PacketWriter
  pub cancel : Bool
  pub connecting_tcp_peers : List ℕ
  pub connections : ℕ → Connection
  pub active_connections : List ℕ
  pub completed_connection_report : NetworkCloseReport
  pub next_connection_id : ℕ
  pub root_task : Option ProtocolJoined
  pub report : NetworkCloseReport
  pub writer_closed : Bool
  pub completed : Bool
  pub failure_logged : Bool

unfoldable pub contains : List ℕ → ℕ → Bool
contains [] k = false
contains (x ∷ xs) k = (x == k) || contains xs k

unfoldable pub without : List ℕ → ℕ → List ℕ
without xs k = retain (λ x. not (x == k)) xs

unfoldable pub set_connection : Endpoint → ℕ → Connection → Endpoint
set_connection e id c = record e { connections = update e.connections id c }

-- The report after the task's result.
unfoldable pub record_task : Option Joined → NetworkCloseReport → NetworkCloseReport
record_task none r = r
record_task (some returned) r = record r { completed = plus r.completed 1 }
record_task (some returned_error) r = record r { failed = plus r.failed 1 }
record_task (some (join_error error)) r = record_join_error r error

unfoldable pub hand_over : Endpoint → ℕ → NetworkCloseReport → Endpoint
hand_over e id report = record e {
  connections = update e.connections id (record (e.connections id) { owner_registered = false });
  completed_connection_report = merge_network e.completed_connection_report report;
  active_connections = without e.active_connections id;
}

unfoldable pub finalize_owner : Endpoint → ℕ → NetworkCloseReport → Endpoint
finalize_owner e id report =
    if (e.connections id).owner_registered then hand_over e id report else e

-- The close state once the task has been awaited.
unfoldable pub awaited : Connection → Connection
awaited c =
    let report = record_task c.task c.report in
    record c {
      cancel = true;
      task = none;
      report = report;
      completed = true;
      failure_logged = c.failure_logged || not (is_complete report);
    }

-- `ManagedTcpConnection::close_and_wait`.
unfoldable pub close_connection : Endpoint → ℕ → CloseResult × Endpoint
close_connection e id =
    let c = e.connections id in
    if c.completed then (close_report_result c.report false, finalize_owner e id c.report) else (
      close_report_result (awaited c).report (not c.failure_logged),
      finalize_owner (set_connection e id (awaited c)) id (awaited c).report,
    )

-- A call whose future is dropped while it waits for the task has only cancelled the connection.
unfoldable abandon_close : Endpoint → ℕ → Endpoint
abandon_close e id =
    let c = e.connections id in
    if c.completed
    then finalize_owner e id c.report
    else set_connection e id (record c { cancel = true })

unfoldable pub close_each : Endpoint → List ℕ → Endpoint
close_each e [] = e
close_each e (id ∷ ids) = close_each (close_connection e id).1 ids

-- `finished` are the connections whose `task_is_finished` is true.
unfoldable pub reap_finished_connections : Endpoint → (ℕ → Bool) → Endpoint
reap_finished_connections e finished = close_each e (retain finished e.active_connections)

unfoldable pub writer_result : Bool → NetworkCloseReport → NetworkCloseReport
writer_result false r = r
writer_result true r = record r { failed = plus r.failed 1 }

unfoldable pub close_open_writer : Endpoint → Bool → Endpoint
close_open_writer e writer_failed = record e {
  writer = Writer.close e.writer;
  writer_closed = true;
  report = writer_result writer_failed e.report;
}

-- `if !state.writer_closed { .. }`; `writer_failed` says that the writer's `close` gives an error.
unfoldable pub close_writer : Endpoint → Bool → Endpoint
close_writer e writer_failed = if e.writer_closed then e else close_open_writer e writer_failed

unfoldable pub none_active : List ℕ → Bool
none_active [] = true
none_active (id ∷ ids) = false

-- The loop over the active connections, on fuel.
unfoldable pub close_active : ℕ → Endpoint → Endpoint
close_active zero e = e
close_active (suc fuel) e =
    let rest = close_active fuel (close_each e e.active_connections) in
    if none_active e.active_connections then e else rest

-- `std::mem::take` of the report of the connections, merged.
unfoldable pub take_report : Endpoint → Endpoint
take_report e = record e {
  completed_connection_report = no_report;
  report = merge_network e.report e.completed_connection_report;
}

unfoldable pub record_root : Option ProtocolJoined → NetworkCloseReport → NetworkCloseReport
record_root none r = r
record_root (some (report_of tasks)) r = merge r tasks
record_root (some (no_report_of error)) r = record_join_error r error

unfoldable pub await_root : Endpoint → Endpoint
await_root e = record e { root_task = none; report = record_root e.root_task e.report }

unfoldable pub complete_close : Endpoint → CloseResult × Endpoint
complete_close e = (
  close_report_result e.report (not e.failure_logged),
  record e { completed = true; failure_logged = e.failure_logged || not (is_complete e.report) },
)

-- `ManagedPacketIo::close_and_wait`.
unfoldable pub close_and_wait : ℕ → Endpoint → Bool → CloseResult × Endpoint
close_and_wait fuel e writer_failed =
    if e.completed
    then (close_report_result e.report false, e)
    else complete_close (
        await_root (
          take_report
            (close_active fuel (close_writer (record e { cancel = true }) writer_failed))))
