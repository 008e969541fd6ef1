-- ===== src/Sink/Runs.antt =====
-- base/src/net/rw.rs: a queued sink's events, one after the other, and the bytes they leave.
use pigs.Prelude.{
  ℕ, not, List, [], ◌∷◌, ◌++◌, leb, if_intro, length, Option, some, ◌≡◌, refl, sym, ap, ◌∙◌, subst,
}
use mathlib.Core.List.{append_assoc, append-nil}
use pigs.Packet.{Outcome, ok, refused, panicked, EncodedPacket, Answer, Progress, wire}
use pigs.Packet.Vectored.{Sends}
use pigs.Sink.{
  Written, written, QueuedTcpSink, push, try_send, try_encoded, write_turn, try_write, Line, Event,
  tries, turns, closes, serves, cancelled, senders_gone, close, task_round, turn_encoded, step,
}
use pigs.Sink.Bytes.{
  Carries, acknowledged, told, packet_bytes, payload_bytes, payload_bytes-append, push-Carries,
  task_round-Carries,
}

module _ (encode_tcp : List ℕ → Outcome EncodedPacket)
    (write_all : List Answer → List ℕ → List ℕ × Progress) where
  -- The payloads that were accepted, in order, and the line after the events.
  unfoldable pub run : Line → List Event → List (List ℕ) × Line
  run l [] = ([], l)
  run l (event ∷ events) =
      let r = step encode_tcp write_all l event in
      let rest = run r.1 events in (told event r.0 ++ rest.0, rest.1)

module _ (encode_tcp : List ℕ → Outcome EncodedPacket)
    (write_all : List Answer → List ℕ → List ℕ × Progress)
    (write_all_lem : (answers : List Answer) (payload : List ℕ)
      → Sends payload [] (write_all answers payload)) where
  -- What a write leaves of a line, by what it is told.
  abbrev Wrote : List ℕ → Line → List ℕ → Option Written × QueuedTcpSink → Type 0
  Wrote total l payload r =
      Carries (total ++ payload_bytes encode_tcp (acknowledged payload r.0))
        (record l { sink = r.1 })

  nothing-Carries : (total : List ℕ) (l : Line) → Carries total l → Carries (total ++ []) l
  nothing-Carries total l h = rw (append-nil total) h

  push-Wrote :
      (total : List ℕ) (l : Line) (payload : List ℕ) (packet : EncodedPacket)
      → encode_tcp payload ≡ ok packet
      → Carries total l
      → Wrote total l payload (some written, push l.sink packet)
  push-Wrote total l payload packet encoded h =
      let same : payload_bytes encode_tcp (payload ∷ []) ≡ wire packet =
        append-nil (packet_bytes (encode_tcp payload)) ∙ ap packet_bytes encoded in
      subst (λ b. Carries (total ++ b) (record l { sink = push l.sink packet })) (sym same)
        (push-Carries write_all write_all_lem total l packet h)

  try_encoded-Wrote :
      (total : List ℕ) (l : Line) (payload : List ℕ) (o : Outcome EncodedPacket)
      → encode_tcp payload ≡ o
      → Carries total l
      → let r = try_encoded l.sink o in Wrote total l payload (some r.0, r.1)
  unfolding try_encoded try_send
  try_encoded-Wrote total l payload (ok packet) encoded h =
      let unchanged = nothing-Carries total l h in
      if_intro (not l.sink.receiving)
        (λ (r : Written × QueuedTcpSink). Wrote total l payload (some r.0, r.1)) unchanged
        (if_intro (leb l.sink.capacity (length l.sink.queue))
          (λ (r : Written × QueuedTcpSink). Wrote total l payload (some r.0, r.1)) unchanged
          (push-Wrote total l payload packet encoded h))
  try_encoded-Wrote total l payload refused encoded h = nothing-Carries total l h
  try_encoded-Wrote total l payload panicked encoded h = nothing-Carries total l h

  turn_encoded-Wrote :
      (total : List ℕ) (l : Line) (payload : List ℕ) (o : Outcome EncodedPacket)
      → encode_tcp payload ≡ o
      → Carries total l
      → Wrote total l payload (turn_encoded l.sink o)
  unfolding turn_encoded write_turn
  turn_encoded-Wrote total l payload (ok packet) encoded h =
      let unchanged = nothing-Carries total l h in
      if_intro l.sink.cancel (Wrote total l payload) unchanged (
        if_intro (not l.sink.receiving) (Wrote total l payload) unchanged (
          if_intro (leb l.sink.capacity (length l.sink.queue)) (Wrote total l payload) unchanged
            (push-Wrote total l payload packet encoded h)))
  turn_encoded-Wrote total l payload refused encoded h = nothing-Carries total l h
  turn_encoded-Wrote total l payload panicked encoded h = nothing-Carries total l h

  step-Carries :
      (total : List ℕ) (l : Line) (event : Event)
      → Carries total l
      → let r = step encode_tcp write_all l event in
        Carries (total ++ payload_bytes encode_tcp (told event r.0)) r.1
  unfolding step try_write close
  step-Carries total l (tries payload) h =
      if_intro l.sink.cancel
        (λ (r : Written × QueuedTcpSink). Wrote total l payload (some r.0, r.1))
        (nothing-Carries total l h) (try_encoded-Wrote total l payload (encode_tcp payload) refl h)
  step-Carries total l (turns payload) h =
      turn_encoded-Wrote total l payload (encode_tcp payload) refl h
  step-Carries total l closes h =
      nothing-Carries total (record l { sink = close l.sink })
        (record { rest = h.rest; in_order = h.in_order; queued = h.queued })
  step-Carries total l (serves answers) h =
      nothing-Carries total (task_round write_all l.phase l (serves answers))
        (task_round-Carries write_all write_all_lem total l.phase l (serves answers) refl h)
  step-Carries total l cancelled h =
      nothing-Carries total (task_round write_all l.phase l cancelled)
        (task_round-Carries write_all write_all_lem total l.phase l cancelled refl h)
  step-Carries total l senders_gone h =
      nothing-Carries total (task_round write_all l.phase l senders_gone)
        (task_round-Carries write_all write_all_lem total l.phase l senders_gone refl h)

  pub run-Carries :
      (total : List ℕ) (l : Line) (events : List Event)
      → Carries total l
      → let r = run encode_tcp write_all l events in
        Carries (total ++ payload_bytes encode_tcp r.0) r.1
  unfolding run
  run-Carries total l [] h = nothing-Carries total l h
  run-Carries total l (event ∷ events) h =
      let r = step encode_tcp write_all l event in
      let accepted = told event r.0 in
      let rest = run encode_tcp write_all r.1 events in
      let same : (total ++ payload_bytes encode_tcp accepted) ++ payload_bytes encode_tcp rest.0
          ≡ total ++ payload_bytes encode_tcp (accepted ++ rest.0) =
        append_assoc total (payload_bytes encode_tcp accepted) (payload_bytes encode_tcp rest.0)
        ∙ ap (λ b. total ++ b) (sym (payload_bytes-append encode_tcp accepted rest.0)) in
      subst (λ b. Carries b rest.1) same
        (run-Carries (total ++ payload_bytes encode_tcp accepted) r.1 events
          (step-Carries total l event h))
