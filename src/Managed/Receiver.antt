-- ===== src/Managed/Receiver.antt =====
-- base/src/net/rw.rs: `run_udp_receiver`, and `run_managed_packet_io` with its protocol tasks.
use pigs.Prelude.{
  ℕ, ◌+◌, ◌-◌, ◌%◌, ◌^◌, Bool, true, false, Option, none, some, List, [], ◌∷◌, ◌++◌, ◌==◌,
  if◌then◌else◌, length,
}
use pigs.Managed.Report.{ManagedTaskReport, ProtocolJoined, plus, record_protocol_join, no_tasks}
pub mod Order
mod Tests

-- `dispatched` are the calls of the dispatcher, whose errors are only logged.
pub record Receiver : Type 0 where
  pub report : ManagedTaskReport
  pub dispatched : List (List ℕ × ℕ)
  pub returned : Bool

-- What the `select!` sees: the cancelled token, a datagram with its sender, or an error of the read.
pub data Received : Type 0 where
  cancelled : Received
  datagram : (packet : List ℕ) (remote_addr : ℕ) → Received
  read_error : Received

unfoldable pub new : Receiver
new = record { report = no_tasks; dispatched = []; returned = false }

unfoldable pub dispatch : Receiver → List ℕ → ℕ → Receiver
dispatch r packet remote_addr =
    if length packet == 0
    then r
    else record r { dispatched = r.dispatched ++ (packet, remote_addr) ∷ [] }

unfoldable pub receive_round : Receiver → Received → Receiver
receive_round r cancelled = record r {
  report = record (r.report) { cancelled = plus r.report.cancelled 1 };
  returned = true;
}
receive_round r (datagram packet remote_addr) = dispatch r packet remote_addr
receive_round r read_error = record r {
  report = record (r.report) { failed = plus r.report.failed 1 };
  returned = true;
}

unfoldable pub run_udp_receiver : Receiver → List Received → Receiver
run_udp_receiver r [] = r
run_udp_receiver r (received ∷ rest) =
    let next = run_udp_receiver (receive_round r received) rest in if r.returned then r else next
