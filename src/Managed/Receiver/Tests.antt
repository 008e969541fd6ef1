-- ===== src/Managed/Receiver/Tests.antt =====
-- base/src/net/rw.rs: the udp receiver on small inputs.
use pigs.Prelude.{List, [], ◌∷◌, ◌≡◌, refl}
use pigs.Managed.Report.{no_tasks}
use pigs.Managed.Receiver.{
  Received, datagram, read_error, new, dispatch, receive_round, run_udp_receiver,
}
use pigs.Managed.Receiver.Order.{Receives, run_udp_receiver-Receives}

abbrev received : List Received
received = datagram (1 ∷ []) 70 ∷ datagram [] 70 ∷ datagram (2 ∷ []) 80 ∷ read_error ∷ []

receives : (run_udp_receiver new received).dispatched ≡ (1 ∷ [], 70) ∷ (2 ∷ [], 80) ∷ []
unfolding no_tasks new dispatch receive_round run_udp_receiver
receives = refl

run_udp_receiver-Receives_example : Receives new received (run_udp_receiver new received)
run_udp_receiver-Receives_example = run_udp_receiver-Receives received
