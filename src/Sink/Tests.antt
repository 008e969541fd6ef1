-- ===== src/Sink/Tests.antt =====
-- base/src/net/rw.rs: sinks on small inputs.
use pigs.Prelude.{ℕ, List, [], ◌∷◌, some, ◌≡◌, refl, true, false}
use pigs.Packet.{
  then_ok, copy_into, from_number_bytes, new, as_slice, is_empty, to_be_bytes, from_be, Answer,
  encode_u16_be, wrote, Progress, none_left, offered, advance, write_all_vectored_2,
  write_encoded_packet, wire,
}
use pigs.Packet.Framing.{read_frame}
use pigs.Packet.Vectored.{write_all_vectored_2-Sends}
use pigs.Sink.{
  queue_size, queued_mode, default_mode, is_closed, push, try_send, try_encoded, begin_encoded,
  ends_early, sink_closed, write_turn, try_write, begin_write, serving, waiting, over, Line,
  open_line, leave_loop, leave_if_empty, after_write, Event, tries, turns, serves, cancelled,
  closes, close, serve_packet, task_round, turn_encoded, step, after_direct, write_locked,
  direct_encoded, DirectEvent, locks, drops, drop_locked, drop_encoded, after_drop, shut,
  direct_step,
}
use pigs.Sink.Runs.{run}
use pigs.Sink.Reading.{IsPrefix, read_all}
use pigs.Sink.Delivery.{run-IsPrefix, read_all-run}
use pigs.Sink.Direct.{run_direct, run_direct-read_all}
use pigs.Sink.Closed.{run-closed}

program : Unit {0}
unfolding then_ok copy_into from_number_bytes new as_slice is_empty to_be_bytes from_be
    encode_u16_be none_left offered advance write_all_vectored_2 write_encoded_packet wire
    read_frame queue_size default_mode is_closed push try_send try_encoded begin_encoded write_turn
    try_write begin_write open_line leave_loop leave_if_empty after_write close serve_packet
    task_round turn_encoded step after_direct write_locked direct_encoded shut drop_locked
    drop_encoded after_drop direct_step run run_direct read_all
program = _

abbrev write_all : List Answer → List ℕ → List ℕ × Progress
write_all answers payload = write_all_vectored_2 answers payload []

-- A channel for two packets: the third write finds it full, and waits for the task to take one.
abbrev events : List Event
events =
    tries (7 ∷ [])
    ∷ turns (8 ∷ 9 ∷ [])
    ∷ tries (1 ∷ [])
    ∷ turns (2 ∷ [])
    ∷ serves (wrote 3 ∷ [])
    ∷ turns (2 ∷ [])
    ∷ []

abbrev served : List Event
served =
    tries (7 ∷ []) ∷ tries (8 ∷ []) ∷ serves (wrote 1 ∷ wrote 2 ∷ []) ∷ serves (wrote 3 ∷ []) ∷ []

accepted :
    (run encode_u16_be write_all (open_line 2) events).0 ≡ (7 ∷ []) ∷ (8 ∷ 9 ∷ []) ∷ (2 ∷ []) ∷ []
unfolding program
accepted = refl

-- The stream breaks in the second frame, and the write that waits is refused.
broken :
    (run encode_u16_be write_all (open_line 2) (
      tries (7 ∷ [])
      ∷ tries (8 ∷ [])
      ∷ serves (wrote 3 ∷ [])
      ∷ serves (wrote 2 ∷ wrote 0 ∷ [])
      ∷ turns (9 ∷ [])
      ∷ [])).1
    ≡ record {
      sink = record { capacity = 2; queue = []; receiving = false; cancel = true };
      sent = 0 ∷ 1 ∷ 7 ∷ 0 ∷ 1 ∷ [];
      phase = over;
    }
unfolding program
broken = refl

-- A write that the stream does not answer keeps the task from seeing the close.
stuck :
    (run encode_u16_be write_all
      (open_line 2)
      (tries (7 ∷ []) ∷ serves [] ∷ closes ∷ cancelled ∷ [])).1.phase
    ≡ waiting
unfolding program
stuck = refl

-- Of a write, what comes before its wait.
begun :
    (begin_write encode_u16_be true (7 ∷ []) ≡ ends_early sink_closed)
    × (begin_write encode_u16_be false [] ≡ begin_encoded (encode_u16_be []))
unfolding program
begun = (refl, refl)

capacities : (queue_size (queued_mode 0) ≡ some 1) × (queue_size default_mode ≡ some 1024)
unfolding program
capacities = (refl, refl)

abbrev direct : List DirectEvent
direct =
    locks (7 ∷ []) (wrote 3 ∷ []) ∷ locks (8 ∷ []) (wrote 1 ∷ wrote 0 ∷ []) ∷ locks (9 ∷ []) [] ∷ []

run-IsPrefix_example :
    let r = run encode_u16_be write_all (open_line 2) events in IsPrefix (read_all 3 r.1.sent) r.0
run-IsPrefix_example = run-IsPrefix write_all (λ a p. write_all_vectored_2-Sends a p []) 2 events 3

read_all-run_example :
    read_all 2 (run encode_u16_be write_all (open_line 2) served).1.sent ≡ (7 ∷ []) ∷ (8 ∷ []) ∷ []
unfolding program
read_all-run_example =
    read_all-run write_all (λ a p. write_all_vectored_2-Sends a p []) 2 served refl refl

-- A client drops its write after one byte of the frame; the next write is accepted behind that byte,
-- and the reader does not find its payload.
abandoned :
    let r =
      run_direct write_all
        (record { sent = []; cancel = false })
        (drops (7 ∷ []) (wrote 1 ∷ []) ∷ locks (8 ∷ []) (wrote 3 ∷ []) ∷ []) in
    (r.0 ≡ (8 ∷ []) ∷ []) × (read_all 1 r.1.sent ≡ [] ∷ [])
unfolding program
abandoned = (refl, refl)

run_direct-read_all_example :
    read_all 1 (run_direct write_all (record { sent = []; cancel = false }) direct).1.sent
    ≡ (7 ∷ []) ∷ []
unfolding program
run_direct-read_all_example =
    run_direct-read_all write_all (λ a p. write_all_vectored_2-Sends a p []) direct _

abbrev closed_line : Line
closed_line = record {
  sink = record { capacity = 2; queue = []; receiving = true; cancel = true };
  sent = [];
  phase = serving;
}

run-closed_example :
    let r = run encode_u16_be write_all closed_line served in
    (r.0 ≡ []) × (is_closed r.1.sink ≡ true)
unfolding program
run-closed_example = run-closed encode_u16_be write_all closed_line served refl
