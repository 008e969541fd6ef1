-- ===== src/Sink/Delivery.antt =====
-- base/src/net/rw.rs: a queued sink and its task are a queue of payloads.
use pigs.Prelude.{
  ℕ, not, List, [], ◌∷◌, ◌++◌, leb, if_intro, length, Option, some, ◌≡◌, refl, sym, ap, ◌∙◌, All,
  All-append,
}
use mathlib.Core.List.{append-nil}
use pigs.Packet.{Outcome, ok, refused, panicked, EncodedPacket, Answer, Progress, encode_u16_be}
use pigs.Packet.Vectored.{Sends}
use pigs.Sink.{
  Written, QueuedTcpSink, try_send, try_encoded, write_turn, try_write, Line, open_line, serving,
  Event, tries, turns, closes, serves, cancelled, senders_gone, turn_encoded, step,
}
use pigs.Sink.Bytes.{acknowledged, told, payload_bytes, wires, Carries}
use pigs.Sink.Runs.{run, run-Carries}
use pigs.Sink.Reading.{IsPrefix, read_all, IsEncoded, read_all-prefix, read_all-exact}

-- Only a payload that is encoded is accepted.
abbrev Accepts : List ℕ → Option Written × QueuedTcpSink → Type 0
Accepts payload r = All IsEncoded (acknowledged payload r.0)

try_encoded-Accepts :
    (q : QueuedTcpSink) (payload : List ℕ) (o : Outcome EncodedPacket)
    → encode_u16_be payload ≡ o
    → let r = try_encoded q o in Accepts payload (some r.0, r.1)
unfolding try_encoded try_send
try_encoded-Accepts q payload (ok packet) encoded =
    if_intro (not q.receiving) (λ (r : Written × QueuedTcpSink). Accepts payload (some r.0, r.1)) _
      (if_intro (leb q.capacity (length q.queue))
        (λ (r : Written × QueuedTcpSink). Accepts payload (some r.0, r.1)) _ ((packet, encoded), _))
try_encoded-Accepts q payload refused encoded = _
try_encoded-Accepts q payload panicked encoded = _

turn_encoded-Accepts :
    (q : QueuedTcpSink) (payload : List ℕ) (o : Outcome EncodedPacket)
    → encode_u16_be payload ≡ o
    → Accepts payload (turn_encoded q o)
unfolding turn_encoded write_turn
turn_encoded-Accepts q payload (ok packet) encoded = if_intro q.cancel (Accepts payload) _ (
    if_intro (not q.receiving) (Accepts payload) _
      (if_intro (leb q.capacity (length q.queue)) (Accepts payload) _ ((packet, encoded), _)))
turn_encoded-Accepts q payload refused encoded = _
turn_encoded-Accepts q payload panicked encoded = _

module _ (write_all : List Answer → List ℕ → List ℕ × Progress) where
  step-Accepts :
      (l : Line) (event : Event)
      → All IsEncoded (told event (step encode_u16_be write_all l event).0)
  unfolding step try_write
  step-Accepts l (tries payload) =
      if_intro l.sink.cancel (λ (r : Written × QueuedTcpSink). Accepts payload (some r.0, r.1)) _
        (try_encoded-Accepts l.sink payload (encode_u16_be payload) refl)
  step-Accepts l (turns payload) = turn_encoded-Accepts l.sink payload (encode_u16_be payload) refl
  step-Accepts l closes = _
  step-Accepts l (serves answers) = _
  step-Accepts l cancelled = _
  step-Accepts l senders_gone = _

  run-Accepts :
      (l : Line) (events : List Event) → All IsEncoded (run encode_u16_be write_all l events).0
  unfolding run
  run-Accepts l [] = _
  run-Accepts l (event ∷ events) =
      let r = step encode_u16_be write_all l event in
      All-append IsEncoded (told event r.0) (run encode_u16_be write_all r.1 events).0
        (step-Accepts l event) (run-Accepts r.1 events)

module _ (write_all : List Answer → List ℕ → List ℕ × Progress)
    (write_all_lem : (answers : List Answer) (payload : List ℕ)
      → Sends payload [] (write_all answers payload)) where
  new-Carries :
      (capacity : ℕ) (events : List Event)
      → let r = run encode_u16_be write_all (open_line capacity) events in
        Carries (payload_bytes encode_u16_be r.0) r.1
  unfolding open_line
  new-Carries capacity events =
      run-Carries encode_u16_be write_all write_all_lem [] (open_line capacity) events
        (record { rest = []; in_order = refl; queued = λ e. refl })

  -- A queued sink with the length prefix encoder, the task that serves its channel and the stream
  -- refine a queue of payloads, if the library's `write_all` sends what it is given, in order and all
  -- of it on success: at any time of a new connection, whatever its clients and its stream do, what a
  -- reader has from the bytes on the stream are the first of the payloads whose writes were told to
  -- be accepted, in their order.
  pub run-IsPrefix :
      (capacity : ℕ) (events : List Event) (fuel : ℕ)
      → let r = run encode_u16_be write_all (open_line capacity) events in
        IsPrefix (read_all fuel r.1.sent) r.0
  run-IsPrefix capacity events fuel =
      let r = run encode_u16_be write_all (open_line capacity) events in
      let h = new-Carries capacity events in
      read_all-prefix fuel r.0 r.1.sent h.rest (run-Accepts write_all (open_line capacity) events)
        h.in_order

  -- When the task of a new connection still serves and its channel is empty, a reader has all of the
  -- accepted payloads, if the library's `write_all` sends what it is given, in order and all of it on
  -- success.
  pub read_all-run :
      (capacity : ℕ) (events : List Event)
      → let r = run encode_u16_be write_all (open_line capacity) events in
        r.1.phase ≡ serving → r.1.sink.queue ≡ [] → read_all (length r.0) r.1.sent ≡ r.0
  read_all-run capacity events at drained =
      let r = run encode_u16_be write_all (open_line capacity) events in
      let h = new-Carries capacity events in
      let nothing_left : h.rest ≡ [] = h.queued at ∙ ap wires drained in
      let all : r.1.sent ≡ payload_bytes encode_u16_be r.0 =
        sym (append-nil r.1.sent) ∙ ap (λ b. r.1.sent ++ b) (sym nothing_left) ∙ h.in_order in
      ap (read_all (length r.0)) (all ∙ sym (append-nil (payload_bytes encode_u16_be r.0)))
      ∙ read_all-exact r.0 [] (run-Accepts write_all (open_line capacity) events)
