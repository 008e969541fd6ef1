-- ===== src/Managed/Receiver/Order.antt =====
-- base/src/net/rw.rs: the udp receiver dispatches every datagram in order, and ends once.
use pigs.Prelude.{
  ℕ, ◌+◌, true, false, List, [], ◌∷◌, ◌++◌, ◌==◌, if◌then◌else◌, if_intro, length, ◌≡◌, refl, sym,
  ◌∙◌, subst, arith, Bool-cases, inl, inr,
}
use mathlib.Core.List.{append_assoc, append-nil}
use pigs.Managed.Report.{no_tasks}
use pigs.Managed.Receiver.{
  Receiver, Received, cancelled, datagram, read_error, new, dispatch, receive_round,
  run_udp_receiver,
}

-- The packets that are not empty, up to the first thing that is no datagram.
unfoldable pub packets : List Received → List (List ℕ × ℕ)
packets [] = []
packets (cancelled ∷ rest) = []
packets (read_error ∷ rest) = []
packets (datagram packet remote_addr ∷ rest) =
    let others = packets rest in
    if length packet == 0 then others else (packet, remote_addr) ∷ others

-- Whether there is such a thing.
unfoldable pub ends_in : List Received → ℕ
ends_in [] = 0
ends_in (cancelled ∷ rest) = 1
ends_in (read_error ∷ rest) = 1
ends_in (datagram packet remote_addr ∷ rest) = ends_in rest

-- A receiver that has received: all packets were dispatched, in order; the report tells of one end,
-- if there was one.
pub record Receives (r : Receiver) (received : List Received) (after : Receiver) : Type 0 where
  pub in_order : after.dispatched ≡ r.dispatched ++ packets received
  pub told : after.report.cancelled + after.report.failed ≡ ends_in received
  pub over : after.returned ≡ (ends_in received == 1)

returned-eq :
    (r : Receiver) (received : List Received) → r.returned ≡ true → run_udp_receiver r received ≡ r
unfolding run_udp_receiver
returned-eq r [] over = refl
returned-eq r (x ∷ rest) over = simp over

running-eq :
    (r : Receiver) (x : Received) (rest : List Received)
    → r.returned ≡ false
    → run_udp_receiver r (x ∷ rest) ≡ run_udp_receiver (receive_round r x) rest
unfolding run_udp_receiver
running-eq r x rest runs = simp runs

-- The receiver runs, and its report tells of no end.
record IsRunning (r : Receiver) : Type 0 where
  runs : r.returned ≡ false
  none_cancelled : r.report.cancelled ≡ 0
  none_failed : r.report.failed ≡ 0

dispatched-packets :
    (r : Receiver) (packet : List ℕ) (remote_addr : ℕ) (rest : List Received)
    → (dispatch r packet remote_addr).dispatched ++ packets rest
      ≡ r.dispatched ++ packets (datagram packet remote_addr ∷ rest)
unfolding dispatch packets
dispatched-packets r packet remote_addr rest = elim (Bool-cases (length packet == 0)) [
  | inl empty ↦ rw empty refl
  | inr some_bytes ↦
      rw some_bytes (append_assoc r.dispatched ((packet, remote_addr) ∷ []) (packets rest))
]

dispatch-IsRunning :
    (r : Receiver) (packet : List ℕ) (remote_addr : ℕ)
    → IsRunning r
    → IsRunning (dispatch r packet remote_addr)
unfolding dispatch
dispatch-IsRunning r packet remote_addr h =
    if_intro (length packet == 0) IsRunning h
      (record { runs = h.runs; none_cancelled = h.none_cancelled; none_failed = h.none_failed })

run-Receives :
    (r : Receiver) (received : List Received)
    → IsRunning r
    → Receives r received (run_udp_receiver r received)
unfolding run_udp_receiver receive_round packets ends_in
run-Receives r [] h = record {
  in_order = sym (append-nil r.dispatched);
  told = let a = h.none_cancelled in let b = h.none_failed in omega arith;
  over = h.runs;
}
run-Receives r (cancelled ∷ rest) h =
    subst (Receives r (cancelled ∷ rest))
      (sym (running-eq r cancelled rest h.runs ∙ returned-eq (receive_round r cancelled) rest refl))
      (record {
        in_order = sym (append-nil r.dispatched);
        told = let a = h.none_cancelled in let b = h.none_failed in omega arith;
        over = refl;
      })
run-Receives r (read_error ∷ rest) h =
    subst (Receives r (read_error ∷ rest))
      (sym
        (running-eq r read_error rest h.runs ∙ returned-eq (receive_round r read_error) rest refl))
      (record {
        in_order = sym (append-nil r.dispatched);
        told = let a = h.none_cancelled in let b = h.none_failed in omega arith;
        over = refl;
      })
run-Receives r (datagram packet remote_addr ∷ rest) h =
    let next = dispatch r packet remote_addr in
    let after = run-Receives next rest (dispatch-IsRunning r packet remote_addr h) in
    subst (Receives r (datagram packet remote_addr ∷ rest))
      (sym (running-eq r (datagram packet remote_addr) rest h.runs))
      (record {
        in_order = after.in_order ∙ dispatched-packets r packet remote_addr rest;
        told = after.told;
        over = after.over;
      })

-- Whatever the receiver meets, it dispatches every datagram that is not empty, in order, up to the
-- first cancellation or read error; there it returns, and its report tells of that end once, as
-- cancelled or as failed. Without such an end it does not return.
pub run_udp_receiver-Receives :
    (received : List Received) → Receives new received (run_udp_receiver new received)
unfolding new no_tasks
run_udp_receiver-Receives received =
    run-Receives new received (record { runs = refl; none_cancelled = refl; none_failed = refl })
