-- ===== src/Sink/Closed.antt =====
-- base/src/net/rw.rs: a queued sink that is closed accepts nothing.
use pigs.Prelude.{
  ℕ, true, false, not, List, [], ◌∷◌, ◌++◌, if_intro, Option, some, ◌≡◌, refl, sym, ap₂, subst,
  arith, Bool-cases, inl, inr,
}
use pigs.Packet.{
  Outcome, ok, refused, panicked, EncodedPacket, Answer, Progress, finished, errored, pending,
  write_encoded_packet,
}
use pigs.Sink.{
  Written, sink_closed, channel_closed, QueuedTcpSink, is_closed, try_send, try_encoded, write_turn,
  try_write, Phase, serving, waiting, over, Line, leave_loop, leave_if_empty, after_write, Event,
  tries, turns, closes, serves, cancelled, senders_gone, close, serve_packet, task_round,
  turn_encoded, step,
}
use pigs.Sink.Bytes.{acknowledged, told}
use pigs.Sink.Runs.{run}

-- Nothing is accepted, and the sink is closed afterwards.
abbrev Refuses : List ℕ → Option Written × QueuedTcpSink → Type 0
Refuses payload r = (acknowledged payload r.0 ≡ []) × (is_closed r.1 ≡ true)

module _ (encode_tcp : List ℕ → Outcome EncodedPacket)
    (write_all : List Answer → List ℕ → List ℕ × Progress) where
  try_encoded-Refuses :
      (q : QueuedTcpSink) (payload : List ℕ) (o : Outcome EncodedPacket)
      → q.cancel ≡ false
      → is_closed q ≡ true
      → let r = try_encoded q o in Refuses payload (some r.0, r.1)
  unfolding try_encoded try_send is_closed
  try_encoded-Refuses q payload (ok packet) not_cancelled closed =
      let gone : not q.receiving ≡ true = ground (arith, closed, not_cancelled) in
      let eq : try_send q packet ≡ (channel_closed, q) = simp gone in
      subst (λ (r : Written × QueuedTcpSink). Refuses payload (some r.0, r.1)) (sym eq)
        (refl, closed)
  try_encoded-Refuses q payload refused not_cancelled closed = (refl, closed)
  try_encoded-Refuses q payload panicked not_cancelled closed = (refl, closed)

  turn_encoded-Refuses :
      (q : QueuedTcpSink) (payload : List ℕ) (o : Outcome EncodedPacket)
      → is_closed q ≡ true
      → Refuses payload (turn_encoded q o)
  unfolding turn_encoded write_turn is_closed
  turn_encoded-Refuses q payload (ok packet) closed = elim (Bool-cases q.cancel) [
    | inl shut_down ↦
        let eq : write_turn q packet ≡ (some sink_closed, q) = simp shut_down in
        subst (Refuses payload) (sym eq) (refl, closed)
    | inr not_cancelled ↦
        let gone : not q.receiving ≡ true = ground (arith, closed, not_cancelled) in
        let eq : write_turn q packet ≡ (some channel_closed, q) = simp (not_cancelled, gone) in
        subst (Refuses payload) (sym eq) (refl, closed)
  ]
  turn_encoded-Refuses q payload refused closed = (refl, closed)
  turn_encoded-Refuses q payload panicked closed = (refl, closed)

  try_write-Refuses :
      (q : QueuedTcpSink) (payload : List ℕ)
      → is_closed q ≡ true
      → let r = try_write encode_tcp q payload in Refuses payload (some r.0, r.1)
  unfolding try_write
  try_write-Refuses q payload closed = elim (Bool-cases q.cancel) [
    | inl shut_down ↦
        let eq : try_write encode_tcp q payload ≡ (sink_closed, q) = simp shut_down in
        subst (λ (r : Written × QueuedTcpSink). Refuses payload (some r.0, r.1)) (sym eq)
          (refl, closed)
    | inr not_cancelled ↦
        let eq : try_write encode_tcp q payload ≡ try_encoded q (encode_tcp payload) =
          simp not_cancelled in
        subst (λ (r : Written × QueuedTcpSink). Refuses payload (some r.0, r.1)) (sym eq)
          (try_encoded-Refuses q payload (encode_tcp payload) not_cancelled closed)
  ]

  leave_loop-closed : (l : Line) → is_closed (leave_loop l).sink ≡ true
  unfolding leave_loop is_closed
  leave_loop-closed l = refl

  after_write-closed :
      (l : Line) (p : Progress) → is_closed l.sink ≡ true → is_closed (after_write l p).sink ≡ true
  unfolding after_write
  after_write-closed l finished closed = closed
  after_write-closed l errored closed = leave_loop-closed l
  after_write-closed l pending closed = closed

  serve_packet-closed :
      (l : Line) (answers : List Answer) (queue : List EncodedPacket)
      → is_closed l.sink ≡ true
      → is_closed (serve_packet write_all l answers queue).sink ≡ true
  unfolding serve_packet is_closed
  serve_packet-closed l answers [] closed = closed
  serve_packet-closed l answers (packet ∷ queue) closed =
      let r = write_encoded_packet write_all answers packet in
      after_write-closed
        (record l { sink = record (l.sink) { queue = queue }; sent = l.sent ++ r.0 }) r.1 closed

  leave_if_empty-closed :
      (l : Line) (queue : List EncodedPacket)
      → is_closed l.sink ≡ true
      → is_closed (leave_if_empty l queue).sink ≡ true
  unfolding leave_if_empty
  leave_if_empty-closed l [] closed = leave_loop-closed l
  leave_if_empty-closed l (packet ∷ queue) closed = closed

  task_round-closed :
      (p : Phase) (l : Line) (event : Event)
      → is_closed l.sink ≡ true
      → is_closed (task_round write_all p l event).sink ≡ true
  unfolding task_round
  task_round-closed serving l (serves answers) closed =
      serve_packet-closed l answers l.sink.queue closed
  task_round-closed serving l cancelled closed =
      if_intro l.sink.cancel (λ (x : Line). is_closed x.sink ≡ true) (leave_loop-closed l) closed
  task_round-closed serving l senders_gone closed = leave_if_empty-closed l l.sink.queue closed
  task_round-closed serving l (tries payload) closed = closed
  task_round-closed serving l (turns payload) closed = closed
  task_round-closed serving l closes closed = closed
  task_round-closed waiting l event closed = closed
  task_round-closed over l event closed = closed

  step-closed :
      (l : Line) (event : Event)
      → is_closed l.sink ≡ true
      → let r = step encode_tcp write_all l event in
        (told event r.0 ≡ []) × (is_closed r.1.sink ≡ true)
  unfolding step close is_closed
  step-closed l (tries payload) closed = try_write-Refuses l.sink payload closed
  step-closed l (turns payload) closed =
      turn_encoded-Refuses l.sink payload (encode_tcp payload) closed
  step-closed l closes closed = (refl, refl)
  step-closed l (serves answers) closed =
      (refl, task_round-closed l.phase l (serves answers) closed)
  step-closed l cancelled closed = (refl, task_round-closed l.phase l cancelled closed)
  step-closed l senders_gone closed = (refl, task_round-closed l.phase l senders_gone closed)

  -- Once a queued sink is closed, by its token or because its task is gone, no write is accepted any
  -- more, whatever happens, and it stays closed.
  pub run-closed :
      (l : Line) (events : List Event)
      → is_closed l.sink ≡ true
      → let r = run encode_tcp write_all l events in (r.0 ≡ []) × (is_closed r.1.sink ≡ true)
  unfolding run
  run-closed l [] closed = (refl, closed)
  run-closed l (event ∷ events) closed =
      let r = step encode_tcp write_all l event in
      let (nothing, still) = step-closed l event closed in
      let (rest, last) = run-closed r.1 events still in (ap₂ ◌++◌ nothing rest, last)
